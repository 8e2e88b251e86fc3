-- ===== src/Fcgi/Parser/Invariant.antt =====
-- The buffers of the parser in each of its states, and the steps of sl_fcgi_parser_parse_params and
-- sl_fcgi_parser_parse_stdin that store in them.
use cpp_the_right_way.Base.{
  ◌⊎◌, ℕ, ◌+◌, ◌^◌, ◌<◌, ◌≤◌, Option, none, some, List, [], ◌∷◌, ◌≡◌, refl, arith, length,
}
use cpp_the_right_way.Fcgi.Parser.State.{
  ParserState, Param, Parser, Stdin, name_length_b3, name_length_b2, name_length_b1, name_length_b0,
  value_length_b3, value_length_b2, value_length_b1, value_length_b0, name_data, value_data,
  stdin_data, stdin_padding, finished, error, init,
}

-- A buffer of `n` octets and a terminator
abbrev pub Full : ℕ → Option (List ℕ) → Type 0
Full n none = ⊥
Full n (some b) = length b ≡ n + 1

-- The same where `counter` octets are still to come; NULL before the first one.
abbrev pub Filling : ℕ → ℕ → Option (List ℕ) → Type 0
Filling n counter none = Unit {0}
Filling n counter (some b) = (length b ≡ n + 1) × (counter ≤ n)

-- The lengths of a parameter, of 31 bits.
abbrev pub Short : Param → Type 0
Short l = (l.name_length < 2 ^ 31) × (l.value_length < 2 ^ 31)

abbrev pub Complete : Param → Type 0
Complete l = Short l × Full l.name_length l.name × Full l.value_length l.value

abbrev pub AllComplete : List Param → Type 0
AllComplete [] = Unit {0}
AllComplete (l ∷ ls) = Complete l × AllComplete ls

-- The last parameter, before its name, in its name, and in its value.
abbrev pub Fresh : Param → Type 0
Fresh l = Short l × (l.name ≡ none) × (l.value ≡ none)

abbrev pub Naming : ℕ → Param → Type 0
Naming counter l = Short l × Filling l.name_length counter l.name × (l.value ≡ none)

abbrev pub Valuing : ℕ → Param → Type 0
Valuing counter l = Short l × Full l.name_length l.name × Filling l.value_length counter l.value

-- `P` holds of the last parameter, and the earlier ones are complete.
abbrev pub Last : (Param → Type 0) → List Param → Type 0
Last P [] = ⊥
Last P (l ∷ ls) = P l × AllComplete ls

abbrev pub NoStdin : Stdin → Type 0
NoStdin st = (st.data_bytes ≡ none) × (st.length ≡ 0)

abbrev ReadingStdin : ℕ → Stdin → Type 0
ReadingStdin counter st = (st.length < 2 ^ 16) × Filling st.length counter st.data_bytes

-- What the request reads of the content.
abbrev pub StdinDone : Stdin → Type 0
StdinDone st = NoStdin st ⊎ ((st.length < 2 ^ 16) × Full st.length st.data_bytes)

abbrev pub In : ParserState → Parser → Type 0
In name_length_b3 p = AllComplete p.params × NoStdin p.stdin
In name_length_b2 p = Last Fresh p.params × NoStdin p.stdin
In name_length_b1 p = Last Fresh p.params × NoStdin p.stdin
In name_length_b0 p = Last Fresh p.params × NoStdin p.stdin
In value_length_b3 p = Last Fresh p.params × NoStdin p.stdin
In value_length_b2 p = Last Fresh p.params × NoStdin p.stdin
In value_length_b1 p = Last Fresh p.params × NoStdin p.stdin
In value_length_b0 p = Last Fresh p.params × NoStdin p.stdin
In name_data p = Last (Naming p.read_counter) p.params × NoStdin p.stdin
In value_data p = Last (Valuing p.read_counter) p.params × NoStdin p.stdin
In stdin_data p = AllComplete p.params × ReadingStdin p.read_counter p.stdin
In stdin_padding p = AllComplete p.params × StdinDone p.stdin
In finished p = AllComplete p.params × StdinDone p.stdin
In error p = Unit {0}
In _ p = AllComplete p.params × NoStdin p.stdin

-- Each buffer of the parser has the length that its state says, the lengths of the parameters have
-- 31 bits, and what is still to be stored fits.
pub record IsParser (p : Parser) : Type 0 where
  pub content : p.header.content_length < 2 ^ 16
  pub buffers : In p.state p

pub init-IsParser : IsParser init
unfolding init
init-IsParser = record { content = omega arith; buffers = (tt, (refl, refl)) }

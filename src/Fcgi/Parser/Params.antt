-- ===== src/Fcgi/Parser/Params.antt =====
-- sl_fcgi_parser_parse_params
use cpp_the_right_way.Base.{
  ℕ, ◌+◌, bit_and, bit_or, Option, none, some, List, [], ◌∷◌, ◌==◌, if◌then◌else◌, add64, sub64,
  u32, ◌<<<◌,
}
use cpp_the_right_way.Arena.{Platform}
use cpp_the_right_way.Run.{M, pure, access, attempt, allocate_or_fail, ◌>>=◌, ◌>>◌}
use cpp_the_right_way.Memory.{store_at}
use cpp_the_right_way.Strings.{string, init_with_buffer, allocate_buffer}
use cpp_the_right_way.Fcgi.Parser.State.{
  Parser, ParserState, Param, name_length_b3, name_length_b2, name_length_b1, name_length_b0,
  value_length_b3, value_length_b2, value_length_b1, value_length_b0, name_data, value_data,
  param_padding, finished, error, in_state, last_param, set_last, log_write_format,
}

abbrev pub sizeof_param : ℕ
sizeof_param = 32

-- "FCGI parameter: %S=%S"
abbrev pub param_format : List ℕ
param_format =
    70 ∷ 67 ∷ 71 ∷ 73 ∷ 32 ∷ 112 ∷ 97 ∷ 114 ∷ 97 ∷ 109 ∷ 101 ∷ 116 ∷ 101 ∷ 114 ∷ 58 ∷ 32 ∷ 37 ∷ 83
    ∷ 61 ∷ 37 ∷ 83 ∷ []

abbrev long_length : ℕ → ℕ
long_length octet = u32 (bit_and octet 0x7f <<< 24)

-- The new parameter is linked in; the first one resets the count of the message's octets.
unfoldable pub link_param : Parser → Parser
link_param p = record p {
  params = record { name_length = 0; value_length = 0; name = none; value = none } ∷ p.params;
  message_size = elim p.params [ [] ↦ 0 | _ ∷ _ ↦ p.message_size ];
}

-- `parser->last_param` is changed to `param`, and the state to `next`.
abbrev with_last : Parser → Param → ParserState → Parser
with_last p param next = record p { params = set_last p.params param; state = next }

-- NAME_LENGTH_B3 and VALUE_LENGTH_B3: one octet of seven bits, or the first of four.
unfoldable pub first_name_length : Parser → ℕ → Param → Parser
first_name_length p octet param =
    if bit_and octet 0x80 == 0x80
    then with_last (record p { message_size = add64 p.message_size 4 })
        (record param { name_length = long_length octet }) name_length_b2
    else with_last (record p { message_size = add64 p.message_size 1 })
        (record param { name_length = octet }) value_length_b3

unfoldable pub first_value_length : Parser → ℕ → Param → Parser
first_value_length p octet param =
    if bit_and octet 0x80 == 0x80
    then with_last (record p { message_size = add64 p.message_size 4 })
        (record param { value_length = long_length octet }) value_length_b2
    else with_last (record p { message_size = add64 p.message_size 1 })
        (record param { value_length = octet }) name_data

unfoldable pub param_allocated : Parser → ℕ → Option ℕ → M Parser
unfolding link_param first_name_length
param_allocated p octet none = pure (in_state p error)
param_allocated p octet (some address) = do
  let linked = link_param p
  param ← access (last_param linked.params)
  pure (first_name_length linked octet param)

unfoldable pub start_param : Platform → Parser → ℕ → M Parser
unfolding param_allocated
start_param os p octet = do
  r ← attempt (allocate_or_fail os sizeof_param)
  param_allocated p octet r

-- The later octets of a length
abbrev pub more_name : ℕ → ℕ → Param → Param
more_name octet k param = record param {
  name_length = u32 (bit_or param.name_length (octet <<< k));
}

abbrev pub more_value : ℕ → ℕ → Param → Param
more_value octet k param = record param {
  value_length = u32 (bit_or param.value_length (octet <<< k));
}

-- PARAM_PADDING
unfoldable pub pad_params : Parser → Parser
pad_params p = record p {
  state = if p.read_counter == 0 then finished else p.state;
  read_counter = sub64 p.read_counter 1;
}

-- The end of a value: the end of the message, or the next parameter, which this octet begins.
unfoldable pub end_value : Platform → Parser → ℕ → M Parser
unfolding start_param pad_params
end_value os p octet =
    if p.message_size == p.header.content_length
    then (if p.header.padding_length == 0
        then pure (in_state p finished)
        else pure (
            pad_params
              (record p { read_counter = p.header.padding_length; state = param_padding })))
    else start_param os (in_state p name_length_b3) octet

-- VALUE_DATA with the buffer in place
unfoldable pub value_octet : Platform → Parser → Param → List ℕ → ℕ → M Parser
unfolding end_value
value_octet os p param buffer octet =
    if p.read_counter == 0
    then (do
      ended ← access (store_at buffer param.value_length 0)
      name ← access param.name
      log_write_format os param_format (
          string (some (init_with_buffer name param.name_length))
          ∷ string (some (init_with_buffer ended param.value_length))
          ∷ [])
      end_value os (with_last p (record param { value = some ended }) p.state) octet)
    else (do
      stored ← access (store_at buffer (sub64 param.value_length p.read_counter) octet)
      pure (record (with_last p (record param { value = some stored }) p.state) {
        read_counter = sub64 p.read_counter 1;
      }))

unfoldable pub value_allocated : Platform → Parser → Param → ℕ → Option (List ℕ) → M Parser
unfolding value_octet
value_allocated os p param octet none = pure (in_state p error)
value_allocated os p param octet (some buffer) =
    let param' = record param { value = some buffer } in
    value_octet os
      (record (with_last p param' p.state) {
        read_counter = param.value_length;
        message_size = add64 p.message_size param.value_length;
      })
      param' buffer octet

unfoldable pub value_by_buffer : Platform → Parser → Param → ℕ → Option (List ℕ) → M Parser
unfolding value_allocated
value_by_buffer os p param octet (some buffer) = value_octet os p param buffer octet
value_by_buffer os p param octet none = do
  r ← attempt (allocate_buffer os (u32 (param.value_length + 1)))
  value_allocated os p param octet r

unfoldable pub parse_value : Platform → Parser → ℕ → M Parser
unfolding value_by_buffer
parse_value os p octet = do
  param ← access (last_param p.params)
  value_by_buffer os p param octet param.value

-- NAME_DATA with the buffer in place
unfoldable pub name_octet : Platform → Parser → Param → List ℕ → ℕ → M Parser
unfolding parse_value
name_octet os p param buffer octet =
    if p.read_counter == 0
    then (do
      ended ← access (store_at buffer param.name_length 0)
      parse_value os (with_last p (record param { name = some ended }) value_data) octet)
    else (do
      stored ← access (store_at buffer (sub64 param.name_length p.read_counter) octet)
      pure (record (with_last p (record param { name = some stored }) p.state) {
        read_counter = sub64 p.read_counter 1;
      }))

unfoldable pub name_allocated : Platform → Parser → Param → ℕ → Option (List ℕ) → M Parser
unfolding name_octet
name_allocated os p param octet none = pure (in_state p error)
name_allocated os p param octet (some buffer) =
    let param' = record param { name = some buffer } in
    name_octet os
      (record (with_last p param' p.state) {
        read_counter = param.name_length;
        message_size = add64 p.message_size param.name_length;
      })
      param' buffer octet

unfoldable pub name_by_buffer : Platform → Parser → Param → ℕ → Option (List ℕ) → M Parser
unfolding name_allocated
name_by_buffer os p param octet (some buffer) = name_octet os p param buffer octet
name_by_buffer os p param octet none = do
  r ← attempt (allocate_buffer os (u32 (param.name_length + 1)))
  name_allocated os p param octet r

unfoldable pub parse_name : Platform → Parser → ℕ → M Parser
unfolding name_by_buffer
parse_name os p octet = do
  param ← access (last_param p.params)
  name_by_buffer os p param octet param.name

-- A change of the last parameter, which is undefined if there is none.
unfoldable pub change_last : Parser → (Param → Param) → ParserState → M Parser
change_last p f next = do param ← access (last_param p.params); pure (with_last p (f param) next)

unfoldable pub params_at : ParserState → Platform → Parser → ℕ → M Parser
unfolding start_param change_last first_value_length parse_name parse_value pad_params
params_at name_length_b3 os p octet = start_param os p octet
params_at name_length_b2 os p octet = change_last p (more_name octet 16) name_length_b1
params_at name_length_b1 os p octet = change_last p (more_name octet 8) name_length_b0
params_at name_length_b0 os p octet = change_last p (more_name octet 0) value_length_b3
params_at value_length_b3 os p octet = do
  param ← access (last_param p.params)
  pure (first_value_length p octet param)
params_at value_length_b2 os p octet = change_last p (more_value octet 16) value_length_b1
params_at value_length_b1 os p octet = change_last p (more_value octet 8) value_length_b0
params_at value_length_b0 os p octet = change_last p (more_value octet 0) name_data
params_at name_data os p octet = parse_name os p octet
params_at value_data os p octet = parse_value os p octet
params_at param_padding os p octet = pure (pad_params p)
params_at _ os p octet = pure (in_state p error)

unfoldable pub parse_params : Platform → Parser → ℕ → M Parser
unfolding params_at
parse_params os p octet = params_at p.state os p octet

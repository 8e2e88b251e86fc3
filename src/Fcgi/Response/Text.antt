-- ===== src/Fcgi/Response/Text.antt =====
-- sl_fcgi_response_process: the text of the headers and the output.
use mathlib.Core.List.{append_assoc, append-nil}
use cpp_the_right_way.Base.{
  ℕ, ◌+◌, ◌*◌, ◌^◌, ◌<◌, ◌≤◌, Option, none, some, List, [], ◌∷◌, ◌++◌, ◌≡◌, refl, sym, ap, ◌∙◌,
  arith, length, length-append,
}
use cpp_the_right_way.Arena.{Platform, Store, pow2_size}
use cpp_the_right_way.Run.{Safe, Safe-bind, Safe-map}
use cpp_the_right_way.Memory.{read_bytes_lem}
use cpp_the_right_way.Strings.{
  SlString, contents, string, format_buffer, append_with_buffer, append_with_string,
}
use cpp_the_right_way.Strings.Append.{IsString, next_allocated, append_with_buffer-Appended}
use cpp_the_right_way.Strings.Fits.{
  Fits, nothing_left, literal, string_next, string_null, format_buffer-Fits,
}
use cpp_the_right_way.HashTable.{Bucket}
use cpp_the_right_way.HashTable.Keys.{length-contents}
use cpp_the_right_way.Fcgi.Response.{header_format, line_end, append_node, append_chain}

-- The text of a value; NULL has none.
abbrev pub text : Option SlString → List ℕ
text none = []
text (some v) = contents v

abbrev IsText : Option SlString → Type 0
IsText none = Unit {0}
IsText (some v) = IsString v

-- "name: value" and the end of the line
abbrev pub line : Bucket → List ℕ
line node = contents node.key ++ b':' ∷ b' ' ∷ (text node.value ++ line_end)

abbrev pub lines : List Bucket → List ℕ
lines [] = []
lines (node ∷ nodes) = line node ++ lines nodes

-- The formatter has room behind the name and behind the value of a header: names of 15 or 16 octets
-- are excluded, and values that end one or two octets before the end of the buffer, or at it.
pub record LineFits (k v : ℕ) : Type 0 where
  pub name_room : k + 2 ≤ next_allocated 0 16 k
  pub value_room : k + 2 + v + 2 ≤ next_allocated (k + 2) (next_allocated 0 16 k) v
  pub name_small : next_allocated 0 16 k < 2 ^ 63
  pub value_small : next_allocated (k + 2) (next_allocated 0 16 k) v < 2 ^ 63
  pub short : k + 2 + v < 2 ^ 60

pub record IsLine (node : Bucket) : Type 0 where
  pub key : IsString node.key
  pub value : IsText node.value
  pub fits : LineFits (length (contents node.key)) (length (text node.value))

abbrev pub AllLines : List Bucket → Type 0
AllLines [] = Unit {0}
AllLines (node ∷ nodes) = IsLine node × AllLines nodes

sixteen : pow2_size (2 * length header_format) ≡ 16
unfolding pow2_size
sixteen = refl

-- The end of a line, behind a value.
line_end-Fits : (n size : ℕ) → n + 2 ≤ size → size < 2 ^ 63 → Fits line_end [] n size line_end
line_end-Fits n size room small =
    literal (omega arith) (omega arith) small
      (literal (omega arith) (omega arith) small nothing_left)

value-Fits :
    (value : Option SlString) (n size : ℕ)
    → IsText value
    → n ≤ size
    → n + length (text value) < 2 ^ 60
    → n + length (text value) + 2 ≤ next_allocated n size (length (text value))
    → next_allocated n size (length (text value)) < 2 ^ 63
    → Fits (b'%' ∷ b'S' ∷ line_end) (string value ∷ []) n size (text value ++ line_end)
value-Fits (some v) n size t fits short room small = string_next v t (omega arith) (
    line_end-Fits (n + length (contents v)) (next_allocated n size (length (contents v))) room
      small)
value-Fits none n size t fits short room small =
    let same : next_allocated n size 0 ≡ size = ground arith in
    string_null (line_end-Fits n size (omega (arith, same)) (omega (arith, same)))

line-Fits :
    (node : Bucket)
    → IsLine node
    → Fits header_format (string (some node.key) ∷ string node.value ∷ []) 0 16 (line node)
line-Fits node v =
    let k = length (contents node.key) in
    let f = v.fits in
    string_next node.key v.key (omega (arith, f.short)) (
      literal (omega arith) (omega (arith, f.name_room)) f.name_small (
        literal (omega arith) (omega (arith, f.name_room)) f.name_small (
          rw (behind k) (
            value-Fits node.value (k + 2) (next_allocated 0 16 k) v.value f.name_room f.short
              f.value_room f.value_small))))
  where
    behind : (k : ℕ) → 0 + k + 1 + 1 ≡ k + 2
    behind k = omega arith

-- What has been added to the output, which stays well formed.
abbrev pub Output : SlString → List ℕ → SlString → Type 0
Output t bytes t' = IsString t' × (contents t' ≡ contents t ++ bytes)

pub Output-append :
    (t t₁ t₂ : SlString) (xs ys : List ℕ)
    → Output t xs t₁
    → Output t₁ ys t₂
    → Output t (xs ++ ys) t₂
Output-append t t₁ t₂ xs ys f g =
    (g.0, g.1 ∙ (ap (λ l. l ++ ys) f.1 ∙ append_assoc (contents t) xs ys))

pub length-Output :
    (t t' : SlString) (bytes : List ℕ)
    → Output t bytes t'
    → length (contents t') ≡ length (contents t) + length bytes
length-Output t t' bytes f = ap length f.1 ∙ length-append (contents t) bytes

module _ (os : Platform) where
  pub append_bytes-Output :
      (t : SlString) (bytes : List ℕ) (s : Store)
      → IsString t
      → length (contents t) + length bytes < 2 ^ 61
      → Safe (append_with_buffer os t bytes s) (λ t' _. Output t bytes t')
  append_bytes-Output t bytes s v small =
      Safe-map (append_with_buffer os t bytes s) _ _
        (append_with_buffer-Appended os t bytes v (omega (arith, length-contents t v)) s)
        (λ t' _ a. (a.valid, a.holds))

  pub append_text-Output :
      (t x : SlString) (s : Store)
      → IsString t
      → IsString x
      → length (contents t) + length (contents x) < 2 ^ 61
      → Safe (append_with_string os t x s) (λ t' _. Output t (contents x) t')
  unfolding append_with_string
  append_text-Output t x s v vx small =
      let e = read_bytes_lem x.buffer x.length (omega (arith, vx.within, vx.whole)) in
      rw e (append_bytes-Output t (contents x) s v small)

  append_node-Output :
      (node : Bucket) (t : SlString) (s : Store)
      → IsLine node
      → IsString t
      → length (contents t) + length (line node) < 2 ^ 61
      → Safe (append_node os node t s) (λ t' _. Output t (line node) t')
  unfolding append_node
  append_node-Output node t s w v small =
      let args = string (some node.key) ∷ string node.value ∷ [] in
      Safe-bind (format_buffer os header_format args) (append_with_string os t) s
        (λ h _. IsString h × (contents h ≡ line node)) (λ t' _. Output t (line node) t')
        (format_buffer-Fits os header_format args (line node) s (omega arith) (omega arith)
          (rw sixteen (line-Fits node w)))
        (λ h s' f. rw (← f.1) (append_text-Output t h s' v f.0 (omega (arith, ap length f.1))))

  pub append_chain-Output :
      (nodes : List Bucket) (t : SlString) (s : Store)
      → AllLines nodes
      → IsString t
      → length (contents t) + length (lines nodes) < 2 ^ 61
      → Safe (append_chain os nodes t s) (λ t' _. Output t (lines nodes) t')
  unfolding append_chain
  append_chain-Output [] t s w v small = (v, sym (append-nil (contents t)))
  append_chain-Output (node ∷ nodes) t s w v small =
      let total = length-append (line node) (lines nodes) in
      Safe-bind (append_node os node t) (append_chain os nodes) s (λ t' _. Output t (line node) t')
        (λ t' _. Output t (lines (node ∷ nodes)) t')
        (append_node-Output node t s w.0 v (omega (arith, total)))
        (λ t₁ s' f.
          Safe-map (append_chain os nodes t₁ s') _ _
            (append_chain-Output nodes t₁ s' w.1 f.0
              (omega (arith, total, length-Output t t₁ (line node) f)))
            (λ t₂ _ g. Output-append t t₁ t₂ (line node) (lines nodes) f g))

-- ===== src/Fcgi/Response/Process.antt =====
-- sl_fcgi_response_process: all headers, the empty line and the output.
use mathlib.Core.List.{flatten, append_assoc, append-nil}
use cpp_the_right_way.Base.{
  ℕ, ◌+◌, ◌^◌, ◌<◌, List, [], ◌∷◌, ◌++◌, ◌≡◌, refl, sym, ap, ◌∙◌, arith, length, length-append,
}
use cpp_the_right_way.Arena.{Platform, Store}
use cpp_the_right_way.Run.{
  Safe, Safe-bind, Safe-map, allocate_or_fail, allocate_or_fail-Safe, ◌>>=◌,
}
use cpp_the_right_way.Strings.{
  SlString, contents, sizeof_string, append_with_buffer, append_with_string,
}
use cpp_the_right_way.Strings.Append.{IsString}
use cpp_the_right_way.HashTable.{Bucket}
use cpp_the_right_way.Fcgi.Request.{zero_string}
use cpp_the_right_way.Fcgi.Response.{Response, line_end, append_chain, append_chains, process}
use cpp_the_right_way.Fcgi.Response.Text.{
  line, lines, AllLines, Output, Output-append, length-Output, append_bytes-Output,
  append_text-Output, append_chain-Output,
}

lines-append : (xs ys : List Bucket) → lines (xs ++ ys) ≡ lines xs ++ lines ys
lines-append [] ys = refl
lines-append (x ∷ xs) ys =
    ap (λ l. line x ++ l) (lines-append xs ys) ∙ sym (append_assoc (line x) (lines xs) (lines ys))

AllLines-append : (xs ys : List Bucket) → AllLines (xs ++ ys) → AllLines xs × AllLines ys
AllLines-append [] ys h = (tt, h)
AllLines-append (x ∷ xs) ys h =
    let (front, back) = AllLines-append xs ys h.1 in ((h.0, front), back)

append_chains-Output :
    (os : Platform) (chains : List (List Bucket)) (t : SlString) (s : Store)
    → AllLines (flatten chains)
    → IsString t
    → length (contents t) + length (lines (flatten chains)) < 2 ^ 61
    → Safe (append_chains os chains t s) (λ t' _. Output t (lines (flatten chains)) t')
unfolding append_chains flatten
append_chains-Output os [] t s w v small = (v, sym (append-nil (contents t)))
append_chains-Output os (chain ∷ chains) t s w v small =
    let rest = flatten chains in
    let total = lines-append chain rest in
    let sum = ap length total ∙ length-append (lines chain) (lines rest) in
    let (here, behind) = AllLines-append chain rest w in
    Safe-bind (append_chain os chain t) (append_chains os chains) s
      (λ t' _. Output t (lines chain) t') (λ t' _. Output t (lines (chain ++ rest)) t')
      (append_chain-Output os chain t s here v (omega (arith, sum)))
      (λ t₁ s' f.
        Safe-map (append_chains os chains t₁ s') _ _
          (append_chains-Output os chains t₁ s' behind f.0
            (omega (arith, sum, length-Output t t₁ (lines chain) f)))
          (λ t₂ _ g. rw total (Output-append t t₁ t₂ (lines chain) (lines rest) f g)))

-- What the response reads as: the lines of its headers, an empty line, and the output.
abbrev pub response_text : Response → List ℕ
response_text r = lines (flatten r.headers.buckets) ++ (line_end ++ contents r.stdout)

-- sl_fcgi_response_process makes no access out of bounds and what it returns holds a line for each
-- header in the order of the table, an empty line and the output, if the names, the values and the
-- output are well formed, the formatter has room for each line (`LineFits`), and the text is shorter
-- than 2 ^ 60 octets.
pub process-response_text :
    (os : Platform) (r : Response) (s : Store)
    → AllLines (flatten r.headers.buckets)
    → IsString r.stdout
    → length (response_text r) < 2 ^ 60
    → Safe (process os r s) (λ t s'. IsString t × (contents t ≡ response_text r))
unfolding process
process-response_text os r s w v small =
    let headers = lines (flatten r.headers.buckets) in
    let sum = length-append headers (line_end ++ contents r.stdout) in
    let zero_valid : IsString zero_string = record { within = omega arith; whole = omega arith } in
    let goal = λ (t : SlString). IsString t × (contents t ≡ response_text r) in
    Safe-bind (allocate_or_fail os sizeof_string)
      (λ _.
        append_chains os r.headers.buckets zero_string
        >>= (λ t. append_with_buffer os t line_end >>= (λ t'. append_with_string os t' r.stdout)))
      s (λ _ _. Unit {0}) (λ t _. goal t) (allocate_or_fail-Safe os sizeof_string s)
      (λ _ s₁ _.
        Safe-bind (append_chains os r.headers.buckets zero_string)
          (λ t. append_with_buffer os t line_end >>= (λ t'. append_with_string os t' r.stdout)) s₁
          (λ t _. Output zero_string headers t) (λ t _. goal t)
          (append_chains-Output os r.headers.buckets zero_string s₁ w zero_valid
            (omega (arith, sum)))
          (λ t₁ s₂ f.
            Safe-bind (append_with_buffer os t₁ line_end) (λ t'. append_with_string os t' r.stdout)
              s₂ (λ t _. Output t₁ line_end t) (λ t _. goal t)
              (append_bytes-Output os t₁ line_end s₂ f.0
                (omega (arith, sum, length-Output zero_string t₁ headers f)))
              (λ t₂ s₃ g.
                Safe-map (append_with_string os t₂ r.stdout s₃) _ _
                  (append_text-Output os t₂ r.stdout s₃ g.0 v (
                    omega (
                      arith,
                      sum,
                      length-Output zero_string t₁ headers f,
                      length-Output t₁ t₂ line_end g,
                    )))
                  (λ t₃ _ h.
                    let k = Output-append t₁ t₂ t₃ line_end (contents r.stdout) g h in
                    let all =
                      Output-append zero_string t₁ t₃ headers (line_end ++ contents r.stdout) f k in
                    all))))

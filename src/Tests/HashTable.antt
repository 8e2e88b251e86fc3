-- ===== src/Tests/HashTable.antt =====
-- sl_hashtable.c at concrete tables.
use cpp_the_right_way.Base.{some, inl, ◌^◌, ◌%◌, ◌↔◌, true, [], ◌≡◌, refl, arith, replicate}
use cpp_the_right_way.Run.{Safe}
use cpp_the_right_way.Strings.{contents}
use cpp_the_right_way.HashTable.{HashTable, init, set_key, resize, compute_hash, are_keys_equal}
use cpp_the_right_way.HashTable.Keys.{are_keys_equal_iff, compute_hash-polynomial, polynomial}
use cpp_the_right_way.HashTable.Resize.{IsTable, Resized, resize-Resized, replicate-IsArray}
use cpp_the_right_way.HashTable.Map.{Sets, set_key-Sets}
use cpp_the_right_way.HashTable.First.{AnswersFirst, init-IsFresh, set_key-AnswersFirst}
use cpp_the_right_way.HashTable.Write.{Answers, set_key-Answers}
use cpp_the_right_way.Tests.Platform.{machine, new_store}
use cpp_the_right_way.Tests.Strings.{two_letters, two_letters-IsString}

abbrev empty_table : HashTable
empty_table = record {
  buckets = replicate 2 [];
  resize = true;
  preallocate = 2;
  size = 2;
  count = 0;
  resizes = 0;
  wasted = 0;
}

empty_table-IsTable : IsTable empty_table
empty_table-IsTable = record {
  power = record { exponent = 1; small = omega arith; power = refl };
  small = omega arith;
  array = replicate-IsArray 2;
}

are_keys_equal_iff_example :
    (are_keys_equal two_letters two_letters ≡ true) ↔ (contents two_letters ≡ contents two_letters)
are_keys_equal_iff_example =
    are_keys_equal_iff two_letters two_letters two_letters-IsString two_letters-IsString

compute_hash-polynomial_example :
    compute_hash two_letters ≡ polynomial (contents two_letters) % 2 ^ 64
compute_hash-polynomial_example = compute_hash-polynomial two_letters

resize-Resized_example :
    Safe (resize machine empty_table 4 new_store) (λ r s'. Resized 8 empty_table r.1)
resize-Resized_example =
    resize-Resized machine empty_table 4 new_store empty_table-IsTable (omega arith) (omega arith)

set_key-Answers_example :
    Safe
      (set_key machine empty_table two_letters (some two_letters) new_store)
      (λ r s'. Answers empty_table two_letters (some two_letters) r)
set_key-Answers_example =
    set_key-Answers machine empty_table two_letters (some two_letters) new_store empty_table-IsTable
      (omega arith) two_letters-IsString

set_key-AnswersFirst_example :
    Safe
      (set_key machine (init 2 true) two_letters (some two_letters) new_store)
      (λ r s'. AnswersFirst two_letters (some two_letters) r)
set_key-AnswersFirst_example =
    set_key-AnswersFirst machine 2 true two_letters (some two_letters) new_store (omega arith)
      (omega arith) two_letters-IsString

set_key-Sets_example :
    Safe
      (set_key machine (init 2 true) two_letters (some two_letters) new_store)
      (λ r s'. Sets 8 0 (init 2 true) two_letters (some two_letters) r)
set_key-Sets_example =
    set_key-Sets machine 8 0 (init 2 true) two_letters (some two_letters) new_store (omega arith)
      (omega arith) (inl (init-IsFresh 2 true (omega arith) (omega arith))) two_letters-IsString

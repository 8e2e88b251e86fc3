-- ===== src/Tests/Platform.antt =====
-- A concrete C library: call number `k` of malloc answers the address 2 ^ 40 * (k + 1).
use cpp_the_right_way.Base.{◌+◌, ◌*◌, ◌^◌, some, []}
use cpp_the_right_way.Arena.{Platform, Store}

abbrev pub machine : Platform
machine = record { malloc = λ k n. some (2 ^ 40 * (k + 1)); junk = λ k i. 170 }

abbrev pub new_store : Store
new_store = record {
  arena = record {
    blocks = [];
    preallocate = 102400;
    allocations = 0;
    allocated = 0;
    block_count = 0;
    used = 0;
  };
  mallocs = 0;
}

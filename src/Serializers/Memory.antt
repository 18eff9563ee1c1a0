-- ===== src/Serializers/Memory.antt =====
-- The memory that Serializers.h works on: reads of a byte string, writes into an allocated block,
-- and `extendBuffer`. A read or write outside the block has no result.
pub mod Laws
use ext_encoding.Prelude.{ℕ, ◌+◌, List, length, take, drop, overwrite, Option, none, some}
use ext_encoding.Prelude.{ltb, leb, if◌then◌else◌}
use ext_encoding.Prelude.Word.{size_add, size_mul}
use ext_encoding.Zend.{Allocator}

-- The reference parameters `buffer`, `length` and `offset` of the write functions.
pub record Region : Type 0 where
  pub buffer : List ℕ
  pub length : ℕ
  pub offset : ℕ

-- `memcpy(dst, &bytes[offset], n)`
unfoldable pub load : List ℕ → ℕ → ℕ → Option (List ℕ)
load bytes offset n =
    if leb (offset + n) (length bytes) then some (take n (drop offset bytes)) else none

-- `memcpy(&buffer[offset], src, n)`, also the assignment of one byte
unfoldable pub store : List ℕ → ℕ → List ℕ → Option (List ℕ)
store buffer offset src =
    if leb (offset + length src) (length buffer) then some (overwrite buffer offset src) else none

-- The buffer and its length, grown to `offset + used_bytes` if that is more: to twice the length,
-- or to what is required.
unfoldable pub extend_buffer : Allocator → List ℕ → ℕ → ℕ → ℕ → List ℕ × ℕ
extend_buffer alloc buffer length offset used_bytes =
    let required_size = size_add offset used_bytes in
    if ltb length required_size
    then (let double_size = size_mul length 2 in
        let length' = if ltb required_size double_size then double_size else required_size in
        (alloc.erealloc buffer length', length'))
    else (buffer, length)

-- `extendBuffer(buffer, length, offset, usedBytes)` on the reference parameters
abbrev pub extended : Allocator → Region → ℕ → Region
extended alloc m used_bytes =
    let (buffer, length) = extend_buffer alloc m.buffer m.length m.offset used_bytes in
    record m { buffer = buffer; length = length }

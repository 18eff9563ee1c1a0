-- ===== src/Serializers/VarInt/Scan/Progress.antt =====
-- The progress of the variable-length reads.
use ext_encoding.Prelude.{ℕ, zero, suc, ◌+◌, ◌^◌, ◌%◌, arith, List, [], ◌∷◌, drop}
use ext_encoding.Zend.{Result, ok, throw, fault, stuck, map_result}
use ext_encoding.Serializers.Contract.{Moves, Advances}
use ext_encoding.Serializers.VarInt.{max_bytes, read_signed_var_int}
use ext_encoding.Serializers.VarInt.{read_unsigned_var_int}
use ext_encoding.Serializers.VarInt.Scan.{scan, read_unsigned_var_int-scan}

scan-Moves :
    (max rounds : ℕ) (bs : List ℕ)
    → let (outcome, taken) = scan max rounds bs in Moves outcome 0 taken
unfolding scan
scan-Moves max zero bs = tt
scan-Moves max (suc rounds) [] = tt
scan-Moves max (suc rounds) (b ∷ bs) = ground (arith, scan-Moves max rounds bs)

pub read_unsigned_var_int-Advances : (bits : ℕ) → Advances (read_unsigned_var_int bits)
read_unsigned_var_int-Advances bits input offset within small =
    rw (read_unsigned_var_int-scan bits input offset small within) (
      moved (scan (max_bytes bits) (max_bytes bits) (drop offset input))
        (scan-Moves (max_bytes bits) (max_bytes bits) (drop offset input)))
  where
    moved :
        (r : Result ℕ × ℕ)
        → Moves r.0 0 r.1
        → Moves (map_result (λ v. v % 2 ^ bits) r.0) offset (offset + r.1)
    moved (ok v, taken) h = omega arith
    moved (throw e, taken) h = tt
    moved (fault, taken) h = tt
    moved (stuck, taken) h = tt

pub read_signed_var_int-Advances : (bits : ℕ) → Advances (read_signed_var_int bits)
unfolding read_signed_var_int
read_signed_var_int-Advances bits input offset within small =
    ground (arith, read_unsigned_var_int-Advances bits input offset within small)

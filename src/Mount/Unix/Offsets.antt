-- ===== src/Mount/Unix/Offsets.antt =====
-- The offset inside a segment in `read_bytes` of src/mount/filesystem_unix.rs.
use Prim.Native.Nat.{bit_and, bit_and-bitwise, digits}
use native.Mathlib.Nat.{two-pow-succ, one-le-pow}
use blockframe_rs.Base.{
  ℕ, zero, suc, ◌+◌, ◌-◌, ◌*◌, ◌/◌, ◌^◌, ◌≤◌, ◌<◌, ◌≡◌, ◌≢◌, refl, ap, ◌∙◌, sym, inl, inr, some, [],
  ◌++◌, Text, Bytes, ok, length, take, drop, min, lookup, string_key, ltb, ◌==◌, arith, false,
  Bool-cases, Option-cases, Result-cases,
}
use blockframe_rs.Utils.{Hasher}
use blockframe_rs.ReedSolomon.{ReedSolomon}
use blockframe_rs.Manifest.{ManifestFile}
use blockframe_rs.Mount.Source.{SegmentSource}
use blockframe_rs.Mount.Cache.{Cache}
use blockframe_rs.Mount.Windows.{Inner, returned}
use blockframe_rs.Mount.Unix.{read_unix_segment, read_bytes_loop, read_bytes}

-- The lowest digits of a number, and those of zero.
zero_mask : (fuel a : ℕ) → digits (λ b. zero) min fuel a 0 ≡ 0
zero_mask zero a = refl
zero_mask (suc fuel) zero = refl
zero_mask (suc fuel) (suc a) = omega (arith, zero_mask fuel (suc a / 2))

-- The bit of a power of two is set in a number that is an odd multiple of the power, and more.
power_mask :
    (k fuel a j r : ℕ)
    → a ≤ fuel
    → a ≡ j * (2 * 2 ^ k) + 2 ^ k + r
    → r < 2 ^ k
    → digits (λ b. zero) min fuel a (2 ^ k) ≡ 2 ^ k
power_mask zero zero a j r l e h = absurd (omega arith)
power_mask zero (suc fuel) zero j r l e h = absurd (omega arith)
power_mask zero (suc fuel) (suc a) j r l e h = omega (arith, zero_mask fuel (suc a / 2))
power_mask (suc k) zero a j r l e h =
    absurd (omega (arith, two-pow-succ k, one-le-pow k 2 (omega arith)))
power_mask (suc k) (suc fuel) zero j r l e h =
    absurd (omega (arith, two-pow-succ k, one-le-pow k 2 (omega arith)))
power_mask (suc k) (suc fuel) (suc a) j r l e h =
    let double = two-pow-succ k in
    let e' : suc a ≡ j * (2 * (2 ^ k + 2 ^ k)) + (2 ^ k + 2 ^ k) + r = rw double at e in
    let h' : r < 2 ^ k + 2 ^ k = rw double at h in
    let half : (2 ^ k + 2 ^ k) / 2 ≡ 2 ^ k = omega arith in
    let ih = power_mask k fuel (suc a / 2) j (r / 2) (omega arith) (omega arith) (omega arith) in
    rw (double, half) (omega (arith, ih))

pub bit_and_odd :
    (a k j r : ℕ) → a ≡ j * (2 * 2 ^ k) + 2 ^ k + r → r < 2 ^ k → bit_and a (2 ^ k) ≡ 2 ^ k
bit_and_odd a k j r e h = bit_and-bitwise a (2 ^ k) ∙ power_mask k a a j r (omega arith) e h

module _ (H : Hasher) (R : ReedSolomon) (S : SegmentSource) (C : Cache) (filename : Text)
    (k tier offset : ℕ)
    (short : (m : ManifestFile) (s : Inner C S) (segment : Bytes)
      → (read_unix_segment H R S C filename m tier (offset / 2 ^ k) s).0 ≡ ok segment
      → length segment ≤ 2 ^ k) where
  -- A round that copies: the next round begins behind what it copied.
  read_bytes_loop_copies :
      (fuel remaining : ℕ) (result segment : Bytes) (s : Inner C S) (m : ManifestFile)
      → 0 < remaining
      → lookup filename s.names.manifests ≡ some m
      → (read_unix_segment H R S C filename m tier (offset / 2 ^ k) s).0 ≡ ok segment
      → bit_and offset (2 ^ k) ≤ length segment
      → let to_read = min remaining (length segment - bit_and offset (2 ^ k)) in
        read_bytes_loop H R S C (suc fuel) filename (2 ^ k) tier remaining offset result s
        ≡ read_bytes_loop H R S C fuel filename
            (2 ^ k)
            tier
            (remaining - to_read)
            (offset + to_read)
            (result ++ take to_read (drop (bit_and offset (2 ^ k)) segment))
            (read_unix_segment H R S C filename m tier (offset / 2 ^ k) s).1
  unfolding read_bytes_loop
  read_bytes_loop_copies fuel remaining result segment s m more found given fits =
      let cut = one-le-pow k 2 (omega arith) in ground arith

  read_bytes_loop-stuck :
      (fuel remaining : ℕ) (result bytes : Bytes) (s : Inner C S)
      → bit_and offset (2 ^ k) ≡ 2 ^ k
      → 0 < remaining
      → (read_bytes_loop H R S C fuel filename (2 ^ k) tier remaining offset result s).0
        ≢ returned bytes
  unfolding read_bytes_loop
  read_bytes_loop-stuck zero remaining result bytes s mask more p = cc
  read_bytes_loop-stuck (suc fuel) remaining result bytes s mask more p =
      let some_left : (remaining == 0) ≡ false = ground arith in
      let cut : (2 ^ k == 0) ≡ false = ground (arith, one-le-pow k 2 (omega arith)) in
      elim (Option-cases (lookup filename s.names.manifests)) [
        | inl missing ↦ absurd (ground arith)
        | inr (m, found) ↦
            elim (Result-cases (read_unix_segment H R S C filename m tier (offset / 2 ^ k) s).0) [
              | inr (e, failed_read) ↦ absurd (ground arith)
              | inl (segment, given) ↦
                  let fits = short m s segment given in
                  elim (Bool-cases (ltb (length segment) (bit_and offset (2 ^ k)))) [
                    | inl beyond ↦ absurd (ground arith)
                    | inr within ↦
                        let step =
                          read_bytes_loop_copies fuel remaining result segment s m more found given
                            (ground arith) in
                        let nothing : min remaining (length segment - bit_and offset (2 ^ k)) ≡ 0 =
                          ground arith in
                        let same : offset + 0 ≡ offset = omega arith in
                        let all_left : remaining - 0 ≡ remaining = omega arith in
                        let q = ap (λ run. run.0) (sym step) ∙ p in
                        read_bytes_loop-stuck fuel remaining _ bytes _ mask more
                          (rw (nothing, same, all_left) at q)
                  ]
            ]
      ]

  -- Over a source and a cache that give no segment longer than the size of segments, a read of a
  -- file of tier 2 or 3 at an offset in an odd-numbered segment never returns bytes, where the size
  -- of segments is a power of two: it fails, panics, or goes on without end.
  pub read_bytes_stuck :
      (fuel size j r : ℕ) (bytes : Bytes) (s : Inner C S)
      → tier ≢ 1
      → offset ≡ j * (2 * 2 ^ k) + 2 ^ k + r
      → r < 2 ^ k
      → 0 < size
      → (read_bytes H R S C filename fuel (2 ^ k) tier offset size s).0 ≢ returned bytes
  unfolding read_bytes
  read_bytes_stuck fuel size j r bytes s large at inside wanted =
      let not_tiny : (tier == 1) ≡ false = ground arith in
      rw not_tiny
        (read_bytes_loop-stuck fuel size [] bytes s (bit_and_odd offset k j r at inside) wanted)

-- ===== src/Tests/Stripes.antt =====
-- A code that restores up to three of 30 shards, and a run of the theorem on the recovery in a block.
use mathlib.Core.List.{append_assoc, append-nil}
use blockframe_rs.Base.{
  ℕ, zero, suc, ◌+◌, ◌*◌, ◌≡◌, refl, ap, ◌∙◌, sym, Option, none, some, List, [], ◌∷◌, ◌++◌, Bytes,
  ok, length, get_elem?, take, drop, concat, All, take_append, arith, Result, ok_inj, ◌==◌, ◌||◌,
  if◌then◌else◌, ◌≤◌, Bool-cases, inl, inr,
}
use blockframe_rs.ReedSolomon.{AreSlotsOf, ReedSolomon, IsRestoring, add_original_shards, add_slots}
use blockframe_rs.Chunker.Generate.{generate_parity, max_len}
use blockframe_rs.Chunker.Generate.Encoded.{generate_parity_runs}
use blockframe_rs.Filestore.Recovery.{recover_segment_rs30_3, count_missing}
use blockframe_rs.Filestore.Recovery.Blocks.{recover_segment_rs30_3-generate_parity}

-- Each recovery shard holds all original shards, one behind the other.
abbrev striping : ReedSolomon
striping = record {
  Encoder = List Bytes;
  encoder_new = λ data_shards parity_shards size. ok [];
  add_original = λ encoder shard. ok (encoder ++ (shard ∷ []));
  encode = λ encoder. ok (concat encoder ∷ concat encoder ∷ concat encoder ∷ []);
  Decoder = ℕ × Bytes;
  Restored = ℕ × Bytes;
  decoder_new = λ data_shards parity_shards size. ok (size, []);
  add_original_shard = λ decoder index shard. ok decoder;
  add_recovery_shard = λ (size, all) index shard. ok (size, shard);
  decode = λ decoder. ok decoder;
  restored_original = λ (size, all) index. some (take size (drop (index * size) all));
}

all_added :
    (before shards : List Bytes)
    → add_original_shards striping before shards ≡ ok (before ++ shards)
all_added before [] = ap ok (sym (append-nil before))
all_added before (s ∷ shards) =
    all_added (before ++ (s ∷ [])) shards ∙ ap ok (append_assoc before (s ∷ []) shards)

drop_over : (m n : ℕ) (s t : Bytes) → m ≡ length s + n → drop m (s ++ t) ≡ drop n t
drop_over m n [] t e = ap (λ k. drop k t) (omega (arith, e))
drop_over zero n (c ∷ s) t e = absurd (omega (arith, e))
drop_over (suc m) n (c ∷ s) t e = drop_over m n s t (omega (arith, e))

stripe :
    (shards : List Bytes) (size i : ℕ) (shard : Bytes)
    → All (λ s. length s ≡ size) shards
    → get_elem? shards i ≡ some shard
    → take size (drop (i * size) (concat shards)) ≡ shard
stripe [] size i shard all h = absurd (cc)
stripe (s ∷ shards) size zero shard (here, all) h =
    let same : s ≡ shard = cc in
    let start : 0 * size ≡ 0 = omega arith in
    ap (λ k. take size (drop k (s ++ concat shards))) start
    ∙ take_append size s (concat shards) (sym here)
    ∙ same
stripe (s ∷ shards) size (suc i) shard (here, all) h =
    let next : suc i * size ≡ length s + i * size = grind (arith, here) in
    ap (take size) (drop_over (suc i * size) (i * size) s (concat shards) next)
    ∙ stripe shards size i shard all h

slots_ignored :
    (d : ℕ × Bytes) (i : ℕ) (slots : List (Option Bytes)) → add_slots striping d i slots ≡ ok d
slots_ignored d i [] = refl
slots_ignored d i (none ∷ slots) = slots_ignored d (i + 1) slots
slots_ignored d i (some t ∷ slots) = slots_ignored d (i + 1) slots

last_stripe :
    (shards e e' : List Bytes) (p q r : Bytes)
    → ◌≡◌ {A = Result (List Bytes)} (ok []) (ok e)
    → add_original_shards striping e shards ≡ ok e'
    → ◌≡◌ {A = Result (List Bytes)} (striping.encode e') (ok (p ∷ q ∷ r ∷ []))
    → r ≡ concat shards
last_stripe shards e e' p q r made added encoded =
    let empty = ok_inj made in
    let stored : add_original_shards striping e shards ≡ ok shards =
      ap (λ b. add_original_shards striping b shards) (sym empty) ∙ all_added [] shards in
    let same : e' ≡ shards = ok_inj (sym added ∙ stored) in
    let whole : concat e' ≡ r = cc in sym whole ∙ ap concat same

striping-IsRestoring : IsRestoring striping
striping-IsRestoring = record {
  restores = λ shards slots size e e' p q r whole alike made added encoded left few. (
    (size, []),
    (size, []),
    (size, r),
    (size, r),
    refl,
    slots_ignored (size, []) 0 slots,
    refl,
    refl,
    λ i shard gone there.
        ap (λ all. some (take size (drop (i * size) all)))
          (last_stripe shards e e' p q r made added encoded)
        ∙ ap some (stripe shards size i shard alike there),
  );
}

-- The segments of a block, and what is left of it without two of them.
abbrev numbered : ℕ → ℕ → List Bytes
numbered i zero = []
numbered i (suc n) = (i ∷ (i + 1) ∷ []) ∷ numbered (i + 1) n

abbrev block : List Bytes
block = numbered 0 30

abbrev without_two : ℕ → List Bytes → List (Option Bytes)
without_two i [] = []
without_two i (s ∷ segments) =
    (if i == 5 || i == 29 then none else some s) ∷ without_two (i + 1) segments

numbered_two : (i n : ℕ) → All (λ s. length s ≡ 2) (numbered i n)
numbered_two i zero = tt
numbered_two i (suc n) = (refl, numbered_two (i + 1) n)

two_left : (i : ℕ) (segments : List Bytes) → AreSlotsOf striping segments (without_two i segments)
two_left i [] = tt
two_left i (s ∷ segments) = elim (Bool-cases (i == 5 || i == 29)) [
  | inl gone ↦ rw gone (two_left (i + 1) segments)
  | inr there ↦ rw there (refl, two_left (i + 1) segments)
]

block_parity :
    generate_parity striping block 30 3 ≡ ok (concat block ∷ concat block ∷ concat block ∷ [])
block_parity =
    generate_parity_runs striping block 2 30 (concat block ∷ concat block ∷ concat block ∷ []) []
      block (unfold max_len in refl) refl refl refl

two_missing : count_missing (without_two 0 block) ≤ 3
unfolding count_missing
two_missing = omega arith

recover_segment_rs30_3-generate_parity_example :
    recover_segment_rs30_3 striping
      (without_two 0 block)
      (concat block ∷ concat block ∷ concat block ∷ [])
      5
    ≡ ok (5 ∷ 6 ∷ [])
recover_segment_rs30_3-generate_parity_example =
    recover_segment_rs30_3-generate_parity striping striping-IsRestoring block (without_two 0 block)
      2 5 (5 ∷ 6 ∷ []) (concat block) (concat block) (concat block) refl (numbered_two 0 30)
      block_parity (two_left 0 block) two_missing refl refl

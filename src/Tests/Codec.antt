-- ===== src/Tests/Codec.antt =====
-- A stand-in for the crate `serde_json`, which writes numbers, and lists after their lengths.
use blockframe_rs.Base.{
  ℕ, zero, suc, ◌≡◌, refl, ap, Option, none, some, List, [], ◌∷◌, Text, Bytes, text, ok, err,
  external, length, ℤ, pos, negsuc, Result,
}
use blockframe_rs.Manifest.{
  ManifestFile, MerkleTreeStructure, SegmentHashes, BlockHashes, ErasureCoding,
}
use blockframe_rs.Chunker.Io.{Serde}
use blockframe_rs.Filestore.Index.Laws.{IsSerde}

-- A way to write a value in front of the rest of a text, and to read it.
pub record Codec (A : Type 0) : Type 0 where
  pub write : A → Bytes → Bytes
  pub read : Bytes → Option (A × Bytes)
  pub reads : (a : A) (rest : Bytes) → read (write a rest) ≡ some (a, rest)

abbrev and_then : {A B : Type 0} → Option A → (A → Option B) → Option B
and_then none f = none
and_then (some a) f = f a

abbrev read_number : Bytes → Option (ℕ × Bytes)
read_number [] = none
read_number (n ∷ s) = some (n, s)

abbrev number : Codec ℕ
number = record { write = λ n rest. n ∷ rest; read = read_number; reads = λ n rest. refl }

module _ {A B : Type 0} where
  abbrev both : Codec A → Codec B → Codec (A × B)
  both c d = record {
    write = λ p rest. c.write p.0 (d.write p.1 rest);
    read =
        λ s. and_then (c.read s) (λ (a, s'). and_then (d.read s') (λ (b, s''). some ((a, b), s'')));
    reads = λ p rest.
        (let first = c.reads p.0 (d.write p.1 rest) in
          let second = d.reads p.1 rest in rw (first, second) refl);
  }

  abbrev along : (f : A → B) (g : B → A) → ((b : B) → f (g b) ≡ b) → Codec A → Codec B
  along f g inverse c = record {
    write = λ b rest. c.write (g b) rest;
    read = λ s. and_then (c.read s) (λ (a, s'). some (f a, s'));
    reads = λ b rest. (let it = c.reads (g b) rest in rw (it, inverse b) refl);
  }

module _ {A : Type 0} (c : Codec A) where
  abbrev write_all : List A → Bytes → Bytes
  write_all [] rest = rest
  write_all (a ∷ as') rest = c.write a (write_all as' rest)

  abbrev read_all : ℕ → Bytes → Option (List A × Bytes)
  read_all zero s = some ([], s)
  read_all (suc n) s =
      and_then (c.read s) (λ (a, s'). and_then (read_all n s') (λ (as', s''). some (a ∷ as', s'')))

  pub read_all_lem :
      (as' : List A) (rest : Bytes) → read_all (length as') (write_all as' rest) ≡ some (as', rest)
  read_all_lem [] rest = refl
  read_all_lem (a ∷ as') rest =
      let first = c.reads a (write_all as' rest) in
      let below = read_all_lem as' rest in rw (first, below) refl

  abbrev list : Codec (List A)
  list = record {
    write = λ as' rest. length as' ∷ write_all as' rest;
    read = λ s. and_then (read_number s) (λ (n, s'). read_all n s');
    reads = read_all_lem;
  }

abbrev to_int : ℕ × ℕ → ℤ
to_int (zero, n) = pos n
to_int (suc k, n) = negsuc n

abbrev of_int : ℤ → ℕ × ℕ
of_int (pos n) = (0, n)
of_int (negsuc n) = (1, n)

pub to_int-of_int : (z : ℤ) → to_int (of_int z) ≡ z
to_int-of_int (pos n) = refl
to_int-of_int (negsuc n) = refl

abbrev integer : Codec ℤ
integer = along to_int of_int to_int-of_int (both number number)

abbrev string : Codec Text
string = list number

abbrev segment : Codec SegmentHashes
segment =
    along (λ (d, p). record { segment_data = d; parity = p }) (λ h. (h.segment_data, h.parity))
      (λ h. refl) (both string (list string))

abbrev block : Codec BlockHashes
block =
    along (λ (s, p). record { segments = s; parity = p }) (λ h. (h.segments, h.parity)) (λ h. refl)
      (both (list string) (list string))

abbrev coding : Codec ErasureCoding
coding =
    along (λ (d, (p, t)). record { data_shards = d; parity_shards = p; type = t })
      (λ e. (e.data_shards, (e.parity_shards, e.type))) (λ e. refl)
      (both integer (both integer string))

abbrev tree : Codec MerkleTreeStructure
tree =
    along (λ (l, (s, (b, r))). record { leaves = l; segments = s; blocks = b; root = r })
      (λ t. (t.leaves, (t.segments, (t.blocks, t.root)))) (λ t. refl)
      (both (list (both integer string))
        (both (list (both number segment)) (both (list (both number block)) string)))

abbrev manifest : Codec ManifestFile
manifest =
    along
      (λ (e, (m, (n, (h, (z, (c, (t, g))))))). record {
        erasure_coding = e;
        merkle_tree = m;
        name = n;
        original_hash = h;
        size = z;
        time_of_creation = c;
        tier = t;
        segment_size = g;
      })
      (λ m. (
        m.erasure_coding,
        (
          m.merkle_tree,
          (m.name, (m.original_hash, (m.size, (m.time_of_creation, (m.tier, m.segment_size))))),
        ),
      ))
      (λ m. refl)
      (both coding
        (both tree (both string (both string (both integer (both string (both number number)))))))

abbrev parsed : Option (ManifestFile × Bytes) → Result ManifestFile
parsed none = err (external (text "expected value"))
parsed (some (m, rest)) = ok m

-- The stand-in.
abbrev pub json : Serde
json = record { to_string = λ m. manifest.write m []; from_str = λ s. parsed (manifest.read s) }

pub json-IsSerde : IsSerde json
json-IsSerde = record {
  reads = λ m. (
    m,
    ap parsed (manifest.reads m []),
    record {
      name = refl;
      original_hash = refl;
      size = refl;
      tier = refl;
      segment_size = refl;
      leaves = λ k. refl;
      segments = λ k. refl;
      blocks = λ k. refl;
    },
  );
}

-- ===== src/Protocol/Layout.antt =====
-- A packed struct: its layout, and the passage between a value and the list of its fields.
use net_node_gateway.Prelude.{ℕ, List, ◌≡◌, ◌∙◌, ap, ◌++◌, All, length, take, ◌≤◌}
use net_node_gateway.Prelude.Pack.{
  pack, unpack, total, Fits, IsByte, unpack-pack, pack-unpack, length-pack, pack-IsByte,
}

pub record PackedStruct (A : Type 0) : Type 0 where
  pub layout : List ℕ
  pub fields : A → List ℕ
  pub build : List ℕ → A
  pub build-fields : (a : A) → build (fields a) ≡ a

module _ {A : Type 0} (s : PackedStruct A) where
  -- the bytes of a value
  unfoldable pub store : A → List ℕ
  unfolding pack
  store a = pack s.layout (s.fields a)

  -- the value that the bytes at a pointer are read as
  unfoldable pub load : List ℕ → A
  unfolding unpack
  load buf = s.build (unpack s.layout buf)

  abbrev pub IsStorable : A → Type 0
  IsStorable a = Fits s.layout (s.fields a)

  pub load-store : (a : A) (rest : List ℕ) → IsStorable a → load (store a ++ rest) ≡ a
  unfolding load store
  load-store a rest h = ap s.build (unpack-pack s.layout (s.fields a) rest h) ∙ s.build-fields a

  pub length-store : (a : A) → IsStorable a → length (store a) ≡ total s.layout
  unfolding store
  length-store a h = length-pack s.layout (s.fields a) h

  pub store-IsByte : (a : A) → All IsByte (store a)
  unfolding store
  store-IsByte a = pack-IsByte s.layout (s.fields a)

  pub store-load :
      (buf : List ℕ)
      → s.fields (load buf) ≡ unpack s.layout buf
      → All IsByte buf
      → total s.layout ≤ length buf
      → store (load buf) ≡ take (total s.layout) buf
  unfolding store load
  store-load buf e h l = ap (pack s.layout) e ∙ pack-unpack s.layout buf h l

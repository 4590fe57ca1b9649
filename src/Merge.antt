-- ===== src/Merge.antt =====
-- The merges of lists in pkg/controllers/utils.go, which keep an entry's place: MergeVolumeMount,
-- MergeContainerPort and MergeEnvVar.
pub mod Last
pub mod Places
use milvus_operator.Base.{
  ℕ, zero, suc, String, Bool, false, Option, none, some, List, [], ◌∷◌, ◌++◌, map, str_eq,
  if◌then◌else◌,
}

-- Of each, the key and all else as a text.
pub record EnvVar : Type 0 where
  pub name : String
  pub value : String

pub record VolumeMount : Type 0 where
  pub mount_path : String
  pub volume : String

pub record ContainerPort : Type 0 where
  pub name : String
  pub port : String

abbrev pub has_key : String → Option String → Bool
has_key n none = false
has_key n (some m) = str_eq m n

abbrev pub next_or : Option ℕ → Bool → Option ℕ
next_or (some i) b = some (suc i)
next_or none b = if b then some 0 else none

-- `srcMap`: the last index of a key.
unfoldable pub src_map : List (Option String) → String → Option ℕ
src_map [] n = none
src_map (k ∷ ks) n = next_or (src_map ks n) (has_key n k)

abbrev pub index_in : List (Option String) → Option String → Option ℕ
index_in ks none = none
index_in ks (some n) = src_map ks n

module _ {A : Type 0} where
  unfoldable pub set_at : ℕ → A → List A → List A
  set_at i x [] = []
  set_at zero x (y ∷ ys) = x ∷ ys
  set_at (suc i) x (y ∷ ys) = y ∷ set_at i x ys

  -- `merged[idx] = item`, or `append`.
  abbrev pub put_at : Option ℕ → A → List A → List A
  put_at none x merged = merged ++ (x ∷ [])
  put_at (some i) x merged = set_at i x merged

  module _ (key : A → Option String) where
    -- The loop over `dst`, with the keys of `src`.
    unfoldable pub place_all : List (Option String) → List A → List A → List A
    unfolding set_at src_map
    place_all ks [] merged = merged
    place_all ks (x ∷ xs) merged = place_all ks xs (put_at (index_in ks (key x)) x merged)

    unfoldable pub merge_lists : List A → List A → List A
    unfolding place_all
    merge_lists [] dst = dst
    merge_lists (s ∷ src) [] = s ∷ src
    merge_lists (s ∷ src) (d ∷ dst) = place_all (map key (s ∷ src)) (d ∷ dst) (s ∷ src)

abbrev pub env_key : EnvVar → Option String
env_key e = some e.name

abbrev pub port_key : ContainerPort → Option String
port_key p = if str_eq p.name "" then none else some p.name

unfoldable pub merge_volume_mount : List VolumeMount → List VolumeMount → List VolumeMount
unfolding merge_lists
merge_volume_mount = merge_lists (λ v. some v.mount_path)

unfoldable pub merge_container_port : List ContainerPort → List ContainerPort → List ContainerPort
unfolding merge_lists
merge_container_port = merge_lists port_key

unfoldable pub merge_env_var : List EnvVar → List EnvVar → List EnvVar
unfolding merge_lists
merge_env_var = merge_lists env_key

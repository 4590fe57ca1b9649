-- ===== src/Webhook/Defaults/Stops.antt =====
-- IsStopping on what DefaultComponents leaves.
use milvus_operator.Base.{
  String, Bool, true, false, true≢false, Option, none, some, List, [], ◌∷◌, ◌++◌, all, All, ◌≡◌,
  refl, sym, ap, subst, ◌∙◌, arith, if◌then◌else◌, Result, ok, inl, inr, ◌⊎◌, Bool-cases,
  Option-cases,
}
use milvus_operator.Base.Int.{pos, ◌==ℤ◌}
use milvus_operator.Api.Spec.{
  ComponentKind, mix_coord, root_coord, data_coord, query_coord, index_coord, data_node, query_node,
  index_node, streaming_node, proxy, standalone, cdc, Component, MilvusSpec, is_cluster, is_set,
  is_version_greater_than_2_6, use_streaming_node, use_mix_coord, use_cdc,
}
use milvus_operator.Api.Stopping.{
  replicas_are_zero, groups_are_zero, all_hold, cluster_stopped, is_stopping,
}
use milvus_operator.Api.Stopping.{when as test_when}
use milvus_operator.Webhook.Defaults.{when, node_kinds, node_components, default_components}
use milvus_operator.Webhook.Defaults.Filled.{has, is_ready, with_replicas, both}
use milvus_operator.Webhook.Defaults.Settled.{IsDefaulted}
use milvus_operator.Webhook.Defaults.Total.{default_components-IsDefaulted}

IsOk : Result Bool → Type 0
IsOk r = (b : Bool) × (r ≡ ok b)

all_hold-IsOk : (ts : List (Result Bool)) → All IsOk ts → IsOk (all_hold ts)
unfolding all_hold IsOk
all_hold-IsOk [] a = (true, refl)
all_hold-IsOk (t ∷ ts) a =
    let (b, e) = a.0 in
    let (c, f) = all_hold-IsOk ts a.1 in (if b then c else false, rw (e, f) (either b c))
  where
    either : (b c : Bool) → (if b then ok c else ok false) ≡ ok (if b then c else false)
    either true c = refl
    either false c = refl

All-append : (xs ys : List (Result Bool)) → All IsOk xs → All IsOk ys → All IsOk (xs ++ ys)
All-append [] ys a b = b
All-append (x ∷ xs) ys a b = (a.0, All-append xs ys a.1 b)

when-IsOk : (b : Bool) (t : Result Bool) → (b ≡ true → IsOk t) → All IsOk (test_when b t)
when-IsOk true t h = (h refl, tt)
when-IsOk false t h = tt

replicas_are_zero-IsOk :
    (o : Option Component) → with_replicas o ≡ true → IsOk (replicas_are_zero o)
unfolding replicas_are_zero IsOk
replicas_are_zero-IsOk none h = absurd cc
replicas_are_zero-IsOk (some c) h = elim (Option-cases c.replicas) [
  | inl z ↦ absurd (true≢false (sym h ∙ ap is_set z))
  | inr (n, z) ↦ (n ==ℤ pos 0, rw (replicas_are_zero, z) refl)
]

groups_are_zero-IsOk : (o : Option Component) → with_replicas o ≡ true → IsOk (groups_are_zero o)
unfolding groups_are_zero IsOk
groups_are_zero-IsOk none h = absurd cc
groups_are_zero-IsOk (some c) h = (_, refl)

-- What the readiness of the nodes says of each.
record NodesReady (p : ComponentKind → Bool) (mix newest : Bool) : Type 0 where
  proxy : p proxy ≡ true
  data_node : p data_node ≡ true
  query_node : p query_node ≡ true
  index_node : newest ≡ false → p index_node ≡ true
  mix_coord : mix ≡ true → p mix_coord ≡ true
  root_coord : mix ≡ false → p root_coord ≡ true
  data_coord : mix ≡ false → p data_coord ≡ true
  query_coord : mix ≡ false → p query_coord ≡ true
  index_coord : mix ≡ false → p index_coord ≡ true

to_NodesReady :
    (p : ComponentKind → Bool) (mix newest : Bool)
    → all p (node_kinds mix newest) ≡ true
    → NodesReady p mix newest
to_NodesReady p true true h = ground arith
to_NodesReady p true false h = ground arith
to_NodesReady p false true h = ground arith
to_NodesReady p false false h = ground arith

same_value : {t u : MilvusSpec} → ok t ≡ ok u → t ≡ u
same_value h = cc

module _ (newer : String → Bool) (default_image : String) where
  cluster_stopped-IsOk :
      (t : MilvusSpec)
      → IsDefaulted newer default_image t
      → is_cluster t.mode ≡ true
      → (is_version_greater_than_2_6 newer t ≡ true
          → has index_node t ≡ true
          → is_ready index_node t ≡ true)
      → All IsOk (cluster_stopped newer t)
  unfolding cluster_stopped node_components use_mix_coord
  cluster_stopped-IsOk t d c x =
      let zero = λ (k : ComponentKind). replicas_are_zero (t.components.field k) in
      let groups = λ (k : ComponentKind). groups_are_zero (t.components.field k) in
      let ready_zero = λ (k : ComponentKind). replicas_are_zero-IsOk (t.components.field k) in
      let ready_groups = λ (k : ComponentKind). groups_are_zero-IsOk (t.components.field k) in
      let coords =
        if has mix_coord t
        then zero mix_coord ∷ []
        else zero index_coord ∷ zero data_coord ∷ zero query_coord ∷ zero root_coord ∷ [] in
      let nodes =
        groups proxy ∷ groups data_node ∷ test_when (has index_node t) (zero index_node) in
      let streams = use_streaming_node newer t in
      All-append (coords ++ nodes) (groups query_node ∷ test_when streams (groups streaming_node))
        (All-append coords nodes
          (by_mix (has mix_coord t) (zero mix_coord)
            (zero index_coord ∷ zero data_coord ∷ zero query_coord ∷ zero root_coord ∷ [])
            (λ e. ready_zero mix_coord (n.mix_coord e))
            (λ e. (
              ready_zero index_coord (n.index_coord e),
              (
                ready_zero data_coord (n.data_coord e),
                (
                  ready_zero query_coord (n.query_coord e),
                  (ready_zero root_coord (n.root_coord e), tt),
                ),
              ),
            )))
          (
            ready_groups proxy n.proxy,
            (
              ready_groups data_node n.data_node,
              when-IsOk (has index_node t) (zero index_node) (λ e.
                  ready_zero index_node
                    (by_version e (Bool-cases (is_version_greater_than_2_6 newer t)))),
            ),
          ))
        (
          ready_groups query_node n.query_node,
          when-IsOk streams (groups streaming_node)
              (λ e. ready_groups streaming_node (streaming_ready streams e (d.streaming_ready c))),
        )
    where
      n : NodesReady (λ k. is_ready k t) (has mix_coord t) (is_version_greater_than_2_6 newer t)
      n =
          to_NodesReady (λ k. is_ready k t) (has mix_coord t) (is_version_greater_than_2_6 newer t)
            (d.nodes_ready c)

      by_version :
          has index_node t ≡ true
          → (is_version_greater_than_2_6 newer t ≡ true)
            ⊎ (is_version_greater_than_2_6 newer t ≡ false)
          → is_ready index_node t ≡ true
      by_version e (inl v) = x v e
      by_version e (inr v) = n.index_node v

      by_mix :
          (b : Bool) (one : Result Bool) (four : List (Result Bool))
          → (b ≡ true → IsOk one)
          → (b ≡ false → All IsOk four)
          → All IsOk (if b then one ∷ [] else four)
      by_mix true one four p q = (p refl, tt)
      by_mix false one four p q = q refl

      streaming_ready :
          (b : Bool)
          → b ≡ true
          → all (λ k. is_ready k t) (when b streaming_node) ≡ true
          → is_ready streaming_node t ≡ true
      streaming_ready true e h = (both (is_ready streaming_node t) true h).0
      streaming_ready false e h = absurd (true≢false (sym e))

  -- The tests of both modes.
  abbrev first : MilvusSpec → List (Result Bool)
  first t =
      replicas_are_zero (t.components.field standalone)
      ∷ test_when (use_cdc t) (replicas_are_zero (t.components.field cdc))

  first-IsOk : (t : MilvusSpec) → IsDefaulted newer default_image t → All IsOk (first t)
  unfolding use_cdc
  first-IsOk t d = (
    replicas_are_zero-IsOk (t.components.field standalone) d.standalone_ready,
    when-IsOk (has cdc t) (replicas_are_zero (t.components.field cdc)) (λ e.
        replicas_are_zero-IsOk (t.components.field cdc) (cdc_ready (has cdc t) e d.cdc_ready)),
  )
    where
      cdc_ready :
          (b : Bool)
          → b ≡ true
          → all (λ k. is_ready k t) (when b cdc) ≡ true
          → is_ready cdc t ≡ true
      cdc_ready true e h = (both (is_ready cdc t) true h).0
      cdc_ready false e h = absurd (true≢false (sym e))

  by_manual : (b : Bool) (r : Result Bool) → IsOk r → IsOk (if b then ok false else r)
  unfolding IsOk
  by_manual true r p = (false, refl)
  by_manual false r p = p

  by_mode :
      (b : Bool) (r q : Result Bool) (c : Bool)
      → b ≡ c
      → IsOk q
      → (c ≡ true → IsOk r)
      → IsOk (if b then r else q)
  by_mode true r q c e p h = h (sym e)
  by_mode false r q c e p h = p

  -- IsStopping dereferences no nil pointer of a spec that DefaultComponents leaves, unless the spec
  -- is of a version after 2.5 and has an index node without replicas.
  pub is_stopping-IsDefaulted :
      (s t : MilvusSpec)
      → default_components newer default_image s ≡ ok t
      → (is_version_greater_than_2_6 newer t ≡ true
          → has index_node t ≡ true
          → is_ready index_node t ≡ true)
      → (b : Bool) × (is_stopping newer t ≡ ok b)
  unfolding is_stopping IsOk
  is_stopping-IsDefaulted s t e x =
      let (u, (f, du)) = default_components-IsDefaulted newer default_image s in
      let d = subst (λ v. IsDefaulted newer default_image v) (same_value (sym f ∙ e)) du in
      by_manual t.components.enable_manual_mode
        (if is_cluster t.mode
          then all_hold (first t ++ cluster_stopped newer t)
          else all_hold (first t))
        (by_mode (is_cluster t.mode) (all_hold (first t ++ cluster_stopped newer t))
          (all_hold (first t)) (is_cluster t.mode) refl (all_hold-IsOk (first t) (first-IsOk t d))
          (λ c. all_hold-IsOk (first t ++ cluster_stopped newer t) (
            All-append (first t) (cluster_stopped newer t) (first-IsOk t d)
              (cluster_stopped-IsOk t d c x))))

-- ===== src/Webhook/Defaults/Stages.antt =====
-- The stages of defaultComponentsReplicas: none of them dereferences a nil pointer.
use milvus_operator.Base.{
  String, Bool, true, false, ◌&&◌, ◌||◌, Option, none, some, List, [], ◌∷◌, all, ◌≡◌, refl, sym, ap,
  ◌∙◌, arith, if◌then◌else◌, ok,
}
use milvus_operator.Base.Int.{pos}
use milvus_operator.Api.Spec.{
  ComponentKind, mix_coord, streaming_node, standalone, cdc, MilvusSpec,
  is_version_greater_than_2_6, use_streaming_node, use_mix_coord, use_cdc,
}
use milvus_operator.Component.{kind_eq}
use milvus_operator.Webhook.Defaults.{
  fill, give_all, when, made_kinds, node_kinds, node_components, set_streaming_mode,
  default_cluster_replicas,
}
use milvus_operator.Webhook.Defaults.Filled.{
  has, is_ready, settings, any_kind, both, fill-has, fill-is_ready, fill-settings,
}
use milvus_operator.Webhook.Defaults.Given.{
  Gives, give-Gives, give_all-Gives, Gives-all, Gives-keeps, all-has,
}

abbrev streams_of : Bool → Option Bool → Bool → Bool
streams_of n mode h = if n then true else elim mode [ some b ↦ b | none ↦ h ]

module _ (newer : String → Bool) where
  abbrev pub newest : MilvusSpec → Bool
  newest s = is_version_greater_than_2_6 newer s

  abbrev pub streams : MilvusSpec → Bool
  streams s = use_streaming_node newer s

  pub newest-settings : (x y : MilvusSpec) → settings x ≡ settings y → newest x ≡ newest y
  unfolding is_version_greater_than_2_6
  newest-settings x y q = ap (λ z. is_version_greater_than_2_6 newer z) q

  streams-same :
      (x y : MilvusSpec)
      → settings x ≡ settings y
      → has streaming_node x ≡ has streaming_node y
      → streams x ≡ streams y
  unfolding use_streaming_node
  streams-same x y q h =
      λ i. streams_of (newest-settings x y q i) ((q i).components.streaming_mode) (h i)

  pub made_streaming :
      (mix no_coord n x : Bool)
      → all (λ k. any_kind k (made_kinds true mix no_coord n x)) (when x streaming_node) ≡ true
  made_streaming mix no_coord n true = ground arith
  made_streaming mix no_coord n false = refl

  -- What giving replicas in cluster mode leaves.
  pub record Settles (u : MilvusSpec) (v : MilvusSpec) : Type 0 where
    pub same_settings : settings v ≡ settings u
    pub same_has : (j : ComponentKind) → has j v ≡ ((newest u && kind_eq mix_coord j) || has j u)
    pub standalone_ready : is_ready standalone v ≡ true
    pub streaming_ready : all (λ k. is_ready k v) (when (streams u) streaming_node) ≡ true
    pub nodes_ready : all (λ k. is_ready k v) (node_kinds (has mix_coord v) (newest u)) ≡ true

  mixed :
      (b : Bool) (s : MilvusSpec) (j : ComponentKind)
      → has j (if b then fill mix_coord s else s) ≡ ((b && kind_eq mix_coord j) || has j s)
  mixed true s j = fill-has mix_coord j s
  mixed false s j = refl

  mixed-settings :
      (b : Bool) (s : MilvusSpec) → settings (if b then fill mix_coord s else s) ≡ settings s
  mixed-settings true s = fill-settings mix_coord s
  mixed-settings false s = refl

  mixed-is_ready :
      (b : Bool) (s : MilvusSpec) (j : ComponentKind)
      → is_ready j (if b then fill mix_coord s else s) ≡ is_ready j s
  mixed-is_ready true s j = fill-is_ready mix_coord j s
  mixed-is_ready false s j = refl

  mixed_keeps :
      (b : Bool) (s : MilvusSpec) (ks : List ComponentKind)
      → all (λ k. is_ready k s) ks ≡ true
      → all (λ k. is_ready k (if b then fill mix_coord s else s)) ks ≡ true
  mixed_keeps b s [] h = refl
  mixed_keeps b s (k ∷ ks) h =
      let (p, q) = both (is_ready k s) (all (λ i. is_ready i s) ks) h in
      λ i. ((mixed-is_ready b s k ∙ p) i) && (mixed_keeps b s ks q i)

  pub default_cluster_replicas-Settles :
      (u : MilvusSpec)
      → has standalone u ≡ true
      → all (λ k. has k u) (when (streams u) streaming_node) ≡ true
      → ((h : ComponentKind → Bool)
          → ((j : ComponentKind) → h j ≡ ((newest u && kind_eq mix_coord j) || has j u))
          → all h (node_kinds (h mix_coord) (newest u)) ≡ true)
      → (v : MilvusSpec) × ((default_cluster_replicas newer u ≡ ok v) × Settles u v)
  unfolding default_cluster_replicas node_components use_mix_coord
  default_cluster_replicas-Settles u s x n =
      let (a, (ea, ga)) = give-Gives (pos 0) standalone u s in
      let like_u = streams-same a u ga.same_settings (ga.same_has streaming_node) in
      let stream = when (streams a) streaming_node in
      let (b, (eb, gb)) = give_all-Gives (pos 1) stream a (
        all-has stream u a ga.same_has
        ∙ (ap (λ w. all (λ k. has k u) (when w streaming_node)) like_u ∙ x)) in
      let settled = gb.same_settings ∙ ga.same_settings in
      let c = if newest b then fill mix_coord b else b in
      let nb = newest-settings b u settled in
      let has_c = λ (j : ComponentKind).
        mixed (newest b) b j
        ∙ (ap (λ w. (w && kind_eq mix_coord j) || has j b) nb
            ∙ ap (λ w. (newest u && kind_eq mix_coord j) || w) (gb.same_has j ∙ ga.same_has j)) in
      let nc = newest-settings c u (mixed-settings (newest b) b ∙ settled) in
      let nodes = node_kinds (has mix_coord c) (newest c) in
      let (v, (ev, gv)) = give_all-Gives (pos 1) nodes c (
        ap (λ w. all (λ k. has k c) (node_kinds (has mix_coord c) w)) nc
        ∙ n (λ j. has j c) has_c) in
      let last = λ (ks : List ComponentKind) (h : all (λ k. is_ready k b) ks ≡ true).
        Gives-keeps ks gv (mixed_keeps (newest b) b ks h) in
      let keep = λ (ks : List ComponentKind) (h : all (λ k. is_ready k a) ks ≡ true).
        last ks (Gives-keeps ks gb h) in
      (
        v,
        (
          rw (ea, eb) ev,
          record {
            same_settings = gv.same_settings ∙ (mixed-settings (newest b) b ∙ settled);
            same_has = λ j. gv.same_has j ∙ has_c j;
            standalone_ready =
                (both (is_ready standalone v) true
                  (keep (standalone ∷ []) (λ i. (ga.ready standalone i) && true))).0;
            streaming_ready =
                (λ i. all (λ k. is_ready k v) (when (sym like_u i) streaming_node))
                ∙ last stream (Gives-all stream gb);
            nodes_ready =
                (λ i. all (λ k. is_ready k v) (node_kinds (gv.same_has mix_coord i) (sym nc i)))
                ∙ Gives-all nodes gv;
          },
        ),
      )

  pub newest-mode : (b : Bool) (t : MilvusSpec) → newest (set_streaming_mode b t) ≡ newest t
  unfolding is_version_greater_than_2_6
  newest-mode b t = refl

  -- Once the streaming mode is set to what the spec asks for, it asks for the same.
  pub streams-mode :
      (t s : MilvusSpec)
      → newest t ≡ newest s
      → t.components.streaming_mode ≡ some (streams s)
      → streams t ≡ streams s
  unfolding use_streaming_node
  streams-mode t s n m =
      (λ i. streams_of (n i) (m i) (has streaming_node t))
      ∙ settled (newest s) s.components.streaming_mode (has streaming_node s)
    where
      settled :
          (b : Bool) (mode : Option Bool) (h : Bool)
          → streams_of b (some (streams_of b mode h)) (has streaming_node t) ≡ streams_of b mode h
      settled true mode h = refl
      settled false mode h = refl

  pub all_or :
      (p q r : ComponentKind → Bool) (ks : List ComponentKind)
      → ((j : ComponentKind) → p j ≡ (q j || r j))
      → all q ks ≡ true
      → all p ks ≡ true
  all_or p q r [] e h = refl
  all_or p q r (k ∷ ks) e h =
      let (a, b) = both (q k) (all q ks) h in
      λ i. ((e k ∙ (λ j. a j || r k)) i) && (all_or p q r ks e b i)

  pub cdc-Gives :
      (s : MilvusSpec)
      → (t : MilvusSpec) × ((give_all (pos 1) (when (use_cdc s) cdc) s ≡ ok t)
          × Gives (λ j. any_kind j (when (use_cdc s) cdc)) s t)
  unfolding use_cdc
  cdc-Gives s = give_all-Gives (pos 1) (when (has cdc s) cdc) s (self (has cdc s) refl)
    where
      self : (b : Bool) → has cdc s ≡ b → all (λ k. has k s) (when b cdc) ≡ true
      self true h = rw h refl
      self false h = refl

  pub cdc_ready :
      (s t : MilvusSpec)
      → Gives (λ j. any_kind j (when (use_cdc s) cdc)) s t
      → all (λ k. is_ready k t) (when (use_cdc t) cdc) ≡ true
  unfolding use_cdc
  cdc_ready s t g =
      (λ i. all (λ k. is_ready k t) (when (g.same_has cdc i) cdc))
      ∙ Gives-all (when (has cdc s) cdc) g

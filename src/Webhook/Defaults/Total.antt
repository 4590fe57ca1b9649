-- ===== src/Webhook/Defaults/Total.antt =====
-- DefaultComponents dereferences no nil pointer, and leaves a spec on which it has nothing to do.
use milvus_operator.Base.{
  String, Bool, true, false, true≢false, ◌&&◌, ◌||◌, some, [], ◌∷◌, all, ◌≡◌, refl, sym, ap, subst,
  str_eq, ◌∙◌, if◌then◌else◌, Result, ok,
}
use milvus_operator.Base.Int.{pos}
use milvus_operator.Api.Spec.{
  ComponentKind, mix_coord, streaming_node, standalone, cdc, MilvusSpec, is_cluster, RollingMode,
  use_mix_coord, use_cdc,
}
use milvus_operator.Component.{kind_eq}
use milvus_operator.Webhook.Defaults.{
  fill_all, give, and_then, give_all, when, made_kinds, node_kinds, made_components,
  node_components, no_coord_specified_by_user, set_default_str, default_rolling_mode,
  default_settings, set_streaming_mode, default_cluster_replicas, default_components_replicas,
  default_components,
}
use milvus_operator.Webhook.Defaults.Filled.{
  has, is_ready, settings, any_kind, both, fill_all-has, fill_all-settings,
}
use milvus_operator.Webhook.Defaults.Given.{give-Gives, Gives-keeps}
use milvus_operator.Webhook.Defaults.Stages.{
  newest, streams, newest-settings, made_streaming, default_cluster_replicas-Settles, newest-mode,
  streams-mode, all_or, cdc-Gives, cdc_ready,
}
use milvus_operator.Webhook.Defaults.Settled.{
  no_coord_in, made_cluster, IsDefaulted, default_components-same,
}

if_same : (b : Bool) (t : String) → (if b then t else t) ≡ t
if_same true t = refl
if_same false t = refl

module _ (newer : String → Bool) (default_image : String) where
  -- The settings that a run leaves as they are.
  record IsFilled (s : MilvusSpec) : Type 0 where
    image : set_default_str s.components.image default_image ≡ s.components.image
    rolling_mode : default_rolling_mode s.components.rolling_mode ≡ s.components.rolling_mode

  IsFilled-settings : (s t : MilvusSpec) → settings t ≡ settings s → IsFilled s → IsFilled t
  IsFilled-settings s t q d =
      let e : IsFilled (settings t) =
        subst IsFilled (sym q) (record { image = d.image; rolling_mode = d.rolling_mode }) in
      record { image = e.image; rolling_mode = e.rolling_mode }

  default_settings-IsFilled : (s : MilvusSpec) → IsFilled (default_settings default_image s)
  unfolding default_settings set_default_str
  default_settings-IsFilled s = record {
    image = twice (str_eq s.components.image "") s.components.image refl;
    rolling_mode = twice_mode s.components.rolling_mode;
  }
    where
      twice :
          (b : Bool) (image : String)
          → str_eq image "" ≡ b
          → set_default_str (if b then default_image else image) default_image
            ≡ (if b then default_image else image)
      twice true image h = if_same (str_eq default_image "") default_image
      twice false image h = rw h refl

      twice_mode :
          (m : RollingMode) → default_rolling_mode (default_rolling_mode m) ≡ default_rolling_mode m
      twice_mode RollingMode.not_set = refl
      twice_mode RollingMode.v1 = refl
      twice_mode RollingMode.v2 = refl
      twice_mode RollingMode.v3 = refl

  -- In cluster mode, what a run leaves has all that a later run looks for.
  cluster-IsDefaulted :
      (s w : MilvusSpec)
      → is_cluster s.mode ≡ true
      → is_cluster w.mode ≡ true
      → IsFilled w
      → newest newer w ≡ newest newer s
      → w.components.streaming_mode ≡ some (streams newer s)
      → ((j : ComponentKind)
          → has j w ≡ (
              (newest newer s && kind_eq mix_coord j)
              || (any_kind j (made_components newer s) || has j s)))
      → is_ready standalone w ≡ true
      → all (λ k. is_ready k w) (when (streams newer s) streaming_node) ≡ true
      → all (λ k. is_ready k w) (node_kinds (has mix_coord w) (newest newer s)) ≡ true
      → all (λ k. is_ready k w) (when (use_cdc w) cdc) ≡ true
      → IsDefaulted newer default_image w
  unfolding made_components node_components no_coord_specified_by_user use_mix_coord
  cluster-IsDefaulted s w cs cw d n m h standalones streaming nodes cdcs =
      let mix = has mix_coord s in
      let none_given = no_coord_specified_by_user s in
      let st = streams-mode newer w s n m in
      let (made, _) =
        made_cluster mix none_given (newest newer s) (streams newer s) (λ j. has j s) (λ j. has j w)
          refl
          (λ j. h j ∙ (λ i.
            (newest newer s && kind_eq mix_coord j)
            || (any_kind j (made_kinds (cs i) mix none_given (newest newer s) (streams newer s))
                || has j s))) in
      record {
        image = d.image;
        rolling_mode = d.rolling_mode;
        made =
            (λ i.
              all (λ k. has k w)
                (made_kinds (cw i) (has mix_coord w) (no_coord_in (λ j. has j w)) (n i) (st i)))
            ∙ made;
        streaming = λ c. m ∙ ap some (sym st);
        mix = λ c q. h mix_coord ∙ (λ i.
            ((sym n ∙ q) i && true) || (any_kind mix_coord (made_components newer s) || mix));
        standalone_ready = standalones;
        streaming_ready =
            λ c. (λ i. all (λ k. is_ready k w) (when (st i) streaming_node)) ∙ streaming;
        nodes_ready =
            λ c. (λ i. all (λ k. is_ready k w) (node_kinds (has mix_coord w) (n i))) ∙ nodes;
        cdc_ready = cdcs;
      }

  Leaves : Result MilvusSpec → Type 0
  Leaves r = (t : MilvusSpec) × ((r ≡ ok t) × IsDefaulted newer default_image t)

  -- The replicas of `cdc` come last.
  with_cdc : MilvusSpec → Result MilvusSpec
  with_cdc t = give_all (pos 1) (when (use_cdc t) cdc) t

  cluster_total :
      (s u : MilvusSpec)
      → is_cluster s.mode ≡ true
      → IsFilled s
      → u ≡ set_streaming_mode (streams newer s) (fill_all (made_components newer s) s)
      → Leaves (default_components_replicas newer u)
  unfolding Leaves with_cdc default_components_replicas made_components no_coord_specified_by_user
      use_mix_coord
  cluster_total s u cs d q =
      let x = streams newer s in
      let list = λ (b : Bool).
        made_kinds b (has mix_coord s) (no_coord_specified_by_user s) (newest newer s) x in
      let su =
        ap settings q ∙ ap (set_streaming_mode x) (fill_all-settings (made_components newer s) s) in
      let nu = newest-settings newer u (set_streaming_mode x s) su ∙ newest-mode newer x s in
      let mu = ap (λ z. z.components.streaming_mode) su in
      let xu = streams-mode newer u s nu mu in
      let cu = ap (λ z. is_cluster z.mode) su ∙ cs in
      let made_u =
        λ (j : ComponentKind). ap (has j) q ∙ fill_all-has j (made_components newer s) s in
      let hu = λ (j : ComponentKind). made_u j ∙ (λ i. any_kind j (list (cs i)) || has j s) in
      let (v, (ev, st)) =
        default_cluster_replicas-Settles newer u (hu standalone)
          ((λ i. all (λ k. has k u) (when (xu i) streaming_node))
            ∙ all_or newer (λ k. has k u) (λ k. any_kind k (list true)) (λ k. has k s)
                (when x streaming_node) hu
                (made_streaming newer (has mix_coord s) (no_coord_specified_by_user s)
                  (newest newer s) x))
          (λ h e.
            (λ i. all h (node_kinds (h mix_coord) (nu i)))
            ∙ (made_cluster (has mix_coord s) (no_coord_specified_by_user s) (newest newer s) x
                (λ j. has j s) h refl
                (λ j. e j ∙ (λ i. (nu i && kind_eq mix_coord j) || hu j i))).1) in
      let (w, (ew, gw)) = cdc-Gives newer v in
      let sw = gw.same_settings ∙ (st.same_settings ∙ su) in
      (
        w,
        (
          (λ i.
                and_then
                  (if cu i then default_cluster_replicas newer u else give standalone (pos 1) u)
                  with_cdc)
              ∙ (ap (λ r. and_then r with_cdc) ev ∙ ew),
          cluster-IsDefaulted s w cs (ap (λ z. is_cluster z.mode) sw ∙ cs)
              (IsFilled-settings (set_streaming_mode x s) w sw
                (record { image = d.image; rolling_mode = d.rolling_mode }))
              (newest-settings newer w (set_streaming_mode x s) sw ∙ newest-mode newer x s)
              (ap (λ z. z.components.streaming_mode) sw)
              (λ j.
                gw.same_has j
                ∙ (st.same_has j ∙ (λ i. (nu i && kind_eq mix_coord j) || made_u j i)))
              (both (is_ready standalone w) true
                (Gives-keeps (standalone ∷ []) gw (λ i. (st.standalone_ready i) && true))).0
              ((λ i. all (λ k. is_ready k w) (when (sym xu i) streaming_node))
                ∙ Gives-keeps (when (streams newer u) streaming_node) gw st.streaming_ready)
              ((λ i. all (λ k. is_ready k w) (node_kinds (gw.same_has mix_coord i) (sym nu i)))
                ∙ Gives-keeps (node_kinds (has mix_coord v) (newest newer u)) gw st.nodes_ready)
              (cdc_ready newer v w gw),
        ),
      )

  standalone_total :
      (s : MilvusSpec)
      → is_cluster s.mode ≡ false
      → IsFilled s
      → Leaves (default_components_replicas newer (fill_all (made_components newer s) s))
  unfolding Leaves with_cdc default_components_replicas made_components
  standalone_total s cs d =
      let t = fill_all (made_components newer s) s in
      let su = fill_all-settings (made_components newer s) s in
      let list = λ (b : Bool).
        made_kinds b (use_mix_coord s) (no_coord_specified_by_user s) (newest newer s)
          (streams newer s) in
      let hu =
        fill_all-has standalone (made_components newer s) s
        ∙ (λ i. any_kind standalone (list (cs i)) || has standalone s) in
      let (v, (ev, gv)) = give-Gives (pos 1) standalone t hu in
      let (w, (ew, gw)) = cdc-Gives newer v in
      let sw = gw.same_settings ∙ (gv.same_settings ∙ su) in
      let cw = ap (λ z. is_cluster z.mode) sw ∙ cs in
      let set = IsFilled-settings s w sw d in
      (
        w,
        (
          (λ i.
                and_then
                  (if (ap (λ z. is_cluster z.mode) su ∙ cs) i
                    then default_cluster_replicas newer t
                    else give standalone (pos 1) t)
                  with_cdc)
              ∙ (ap (λ r. and_then r with_cdc) ev ∙ ew),
          record {
            image = set.image;
            rolling_mode = set.rolling_mode;
            made =
                (λ i.
                  all (λ k. has k w)
                    (made_kinds (cw i) (use_mix_coord w) (no_coord_specified_by_user w)
                      (newest newer w) (streams newer w)))
                ∙ (λ i. (gw.same_has standalone ∙ (gv.same_has standalone ∙ hu)) i && true);
            streaming = λ c. absurd (true≢false (sym c ∙ cw));
            mix = λ c n. absurd (true≢false (sym c ∙ cw));
            standalone_ready =
                (both (is_ready standalone w) true
                  (Gives-keeps (standalone ∷ []) gw (λ i. (gv.ready standalone i) && true))).0;
            streaming_ready = λ c. absurd (true≢false (sym c ∙ cw));
            nodes_ready = λ c. absurd (true≢false (sym c ∙ cw));
            cdc_ready = cdc_ready newer v w gw;
          },
        ),
      )

  -- What DefaultComponents leaves.
  pub default_components-IsDefaulted :
      (s : MilvusSpec)
      → (t : MilvusSpec) × ((default_components newer default_image s ≡ ok t)
          × IsDefaulted newer default_image t)
  unfolding default_components Leaves
  default_components-IsDefaulted s =
      let r = default_settings default_image s in by_mode (is_cluster r.mode) refl
    where
      r : MilvusSpec
      r = default_settings default_image s

      by_mode :
          (b : Bool)
          → is_cluster r.mode ≡ b
          → Leaves (
              default_components_replicas newer (
                if b
                then set_streaming_mode (streams newer r) (fill_all (made_components newer r) r)
                else fill_all (made_components newer r) r))
      by_mode true c = cluster_total r _ c (default_settings-IsFilled s) refl
      by_mode false c = standalone_total r c (default_settings-IsFilled s)

  -- DefaultComponents dereferences no nil pointer, and a second run changes nothing.
  pub default_components_twice :
      (s : MilvusSpec)
      → (t : MilvusSpec) × ((default_components newer default_image s ≡ ok t)
          × (default_components newer default_image t ≡ ok t))
  default_components_twice s =
      let (t, (e, d)) = default_components-IsDefaulted s in
      (t, (e, default_components-same newer default_image t d))

-- ===== src/Webhook/ProviderEnv/Accepted.antt =====
-- What an accepted provider-env annotation gives.
use mathlib.Core.List.{Permᴰ}
use chur.Base.{
  ◌≤◌, false, some, List, [], ◌∷◌, map, ◌≡◌, refl, sym, ap, ◌∙◌, subst, inl, inr, arith, Bool-cases,
  All, All-map_weaken, length, ok, bind-eq-ok,
}
use chur.Text.{Text, text_lt}
use chur.Text.Order.{text_lt_trans, text_lt_total, text_lt_asym}
use chur.Dict.{Dict, mem_key}
use chur.Webhook.Pod.{EnvVar}
use chur.Webhook.ProviderEnv.{
  reserved_init_env, check_entry, check_entries, insert_by_name, sort_by_name, decoded_env,
}
use chur.Webhook.ProviderEnv.Keys.{IsEnvKey, valid_provider_env_key_iff}
use chur.Webhook.ProviderEnv.Sorted.{
  IsDistinct, All-perm, IsDistinct-perm, names, names-perm, keys, to_env, Passes,
  check_entries_sound, names-to_env,
}

-- In order of their names.
abbrev pub IsSortedByName : List EnvVar → Type 0
IsSortedByName [] = Unit
IsSortedByName (e ∷ es) = All (λ x. text_lt x.name e.name ≡ false) es × IsSortedByName es

insert-perm : (e : EnvVar) (es : List EnvVar) → Permᴰ (e ∷ es) (insert_by_name e es)
unfolding insert_by_name
insert-perm e [] = Permᴰ.cons refl Permᴰ.nil
insert-perm e (x ∷ es) = elim (Bool-cases (text_lt x.name e.name)) [
  | inl h ↦ rw h (Permᴰ.trans (Permᴰ.swap refl refl) (Permᴰ.cons refl (insert-perm e es)))
  | inr h ↦ rw h (Permᴰ.cons refl (Permᴰ.cons refl (perm_refl es)))
]
  where
    perm_refl : (xs : List EnvVar) → Permᴰ xs xs
    perm_refl [] = Permᴰ.nil
    perm_refl (y ∷ ys) = Permᴰ.cons refl (perm_refl ys)

sort-permᴰ : (es : List EnvVar) → Permᴰ es (sort_by_name es)
unfolding sort_by_name
sort-permᴰ [] = Permᴰ.nil
sort-permᴰ (e ∷ es) =
    Permᴰ.trans (Permᴰ.cons refl (sort-permᴰ es)) (insert-perm e (sort_by_name es))

not_less :
    (e x y : EnvVar)
    → text_lt x.name e.name ≡ false
    → text_lt y.name x.name ≡ false
    → text_lt y.name e.name ≡ false
not_less e x y h k = ground (arith, text_lt_trans y.name e.name x.name, text_lt_total x.name e.name)

insert-IsSortedByName :
    (e : EnvVar) (es : List EnvVar) → IsSortedByName es → IsSortedByName (insert_by_name e es)
unfolding insert_by_name
insert-IsSortedByName e [] s = (tt, tt)
insert-IsSortedByName e (x ∷ es) s = elim (Bool-cases (text_lt x.name e.name)) [
  | inl h ↦ rw h (
    All-perm (λ y. text_lt y.name x.name ≡ false) (insert-perm e es)
        (text_lt_asym x.name e.name h, s.0),
    insert-IsSortedByName e es s.1,
  )
  | inr h ↦ rw h (
    (h, All-map_weaken (λ y. text_lt y.name x.name ≡ false) (λ y k. not_less e x y h k) es s.0),
    s,
  )
]

sort-IsSortedByName : (es : List EnvVar) → IsSortedByName (sort_by_name es)
unfolding sort_by_name
sort-IsSortedByName [] = tt
sort-IsSortedByName (e ∷ es) = insert-IsSortedByName e (sort_by_name es) (sort-IsSortedByName es)

-- A variable that a pod may set for chur-init.
pub record IsExtraVar (e : EnvVar) : Type 0 where
  pub key : IsEnvKey e.name
  pub not_reserved : mem_key e.name reserved_init_env ≡ false
  pub short_value : length e.value ≤ 4096

Passes-IsExtraVar : (m : Dict Text) → All Passes m → All IsExtraVar (map to_env m)
unfolding check_entry to_env
Passes-IsExtraVar [] h = tt
Passes-IsExtraVar ((k, v) ∷ m) h = (
  record {
    key = (valid_provider_env_key_iff k).0 (ground arith);
    not_reserved = ground arith;
    short_value = ground arith;
  },
  Passes-IsExtraVar m h.1,
)

-- The variables are the entries of the decoded map, sorted by name; each of them has a CHUR_ key
-- that the webhook does not reserve and a value of at most 4096 bytes; no name stands twice.
pub record IsExtraEnv (m : Dict Text) (es : List EnvVar) : Type 0 where
  pub entries : Permᴰ (map to_env m) es
  pub sorted : IsSortedByName es
  pub allowed : All IsExtraVar es
  pub distinct : IsDistinct (names es)

-- If the decoder gives a map (its keys are distinct) and the annotation is accepted, the variables
-- are exactly the map's entries: sorted by name, each with an allowed key and a bounded value.
pub decoded_env-IsExtraEnv :
    (m : Dict Text) {es : List EnvVar}
    → IsDistinct (keys m)
    → decoded_env (some m) ≡ ok es
    → IsExtraEnv m es
unfolding decoded_env
decoded_env-IsExtraEnv m d h =
    let (xs, c, e) = bind-eq-ok (check_entries m) (λ xs. ok (sort_by_name xs)) h in
    let (all, x) = check_entries_sound m c in
    let result : sort_by_name (map to_env m) ≡ _ = ap sort_by_name (sym x) ∙ ground (arith, e) in
    subst (IsExtraEnv m) result (record {
      entries = sort-permᴰ (map to_env m);
      sorted = sort-IsSortedByName (map to_env m);
      allowed = All-perm IsExtraVar (sort-permᴰ (map to_env m)) (Passes-IsExtraVar m all);
      distinct =
          IsDistinct-perm (names-perm (sort-permᴰ (map to_env m)))
            (subst IsDistinct (sym (names-to_env m)) d);
    })

-- ===== src/Webhook/ProviderEnv/Sorted.antt =====
-- The order of the variables does not depend on the order in which `range` visits the map.
use mathlib.Core.List.{Permᴰ}
use mathlib.Core.Path.{ap₂}
use chur.Base.{
  some, List, [], ◌∷◌, map, ◌≡◌, refl, sym, ap, ◌∙◌, subst, ◌≢◌, arith, All, ok, ◌>>=◌, bind-eq-ok,
}
use chur.Text.{Text}
use chur.Text.Order.{text_lt_trans, text_lt_total, text_lt_asym}
use chur.Dict.{Dict}
use chur.Webhook.Pod.{EnvVar}
use chur.Webhook.ProviderEnv.{check_entry, check_entries, insert_by_name, sort_by_name, decoded_env}

-- No text twice.
abbrev pub IsDistinct : List Text → Type 0
IsDistinct [] = Unit
IsDistinct (k ∷ ks) = All (λ j. k ≢ j) ks × IsDistinct ks

pub All-perm {ℓ κ} :
    {A : Type ℓ} (P : A → Type κ) {xs ys : List A} → Permᴰ xs ys → All P xs → All P ys
All-perm P Permᴰ.nil h = tt
All-perm P (Permᴰ.cons e p) h = (subst P e h.0, All-perm P p h.1)
All-perm P (Permᴰ.swap e f) h = (subst P f h.1.0, (subst P e h.0, h.1.1))
All-perm P (Permᴰ.trans p q) h = All-perm P q (All-perm P p h)

pub IsDistinct-perm : {ks js : List Text} → Permᴰ ks js → IsDistinct ks → IsDistinct js
IsDistinct-perm Permᴰ.nil h = tt
IsDistinct-perm (Permᴰ.cons {a} {b} {l₁} {l₂} e p) h =
    (All-perm (λ j. b ≢ j) p (subst (λ k. All (λ j. k ≢ j) l₁) e h.0), IsDistinct-perm p h.1)
IsDistinct-perm (Permᴰ.swap {a} {b} {a'} {b'} {l} e f) h = (
  (λ q. h.0.0 (e ∙ sym q ∙ sym f), subst (λ k. All (λ j. k ≢ j) l) f h.1.0),
  (subst (λ k. All (λ j. k ≢ j) l) e h.0.1, h.1.1),
)
IsDistinct-perm (Permᴰ.trans p q) h = IsDistinct-perm q (IsDistinct-perm p h)

insert_comm :
    (a b : EnvVar) (es : List EnvVar)
    → a.name ≢ b.name
    → insert_by_name a (insert_by_name b es) ≡ insert_by_name b (insert_by_name a es)
unfolding insert_by_name
insert_comm a b [] ne = ground (arith, text_lt_total a.name b.name, text_lt_asym a.name b.name)
insert_comm a b (x ∷ es) ne = ground (
  arith,
  insert_comm a b es ne,
  text_lt_total a.name b.name,
  text_lt_asym a.name b.name,
  text_lt_total x.name a.name,
  text_lt_total x.name b.name,
  text_lt_trans b.name x.name a.name,
  text_lt_trans a.name x.name b.name,
)

abbrev pub names : List EnvVar → List Text
names [] = []
names (e ∷ es) = e.name ∷ names es

pub names-perm : {xs ys : List EnvVar} → Permᴰ xs ys → Permᴰ (names xs) (names ys)
names-perm Permᴰ.nil = Permᴰ.nil
names-perm (Permᴰ.cons e p) = Permᴰ.cons (ap (λ (x : EnvVar). x.name) e) (names-perm p)
names-perm (Permᴰ.swap e f) =
    Permᴰ.swap (ap (λ (x : EnvVar). x.name) e) (ap (λ (x : EnvVar). x.name) f)
names-perm (Permᴰ.trans p q) = Permᴰ.trans (names-perm p) (names-perm q)

sort-perm :
    {xs ys : List EnvVar} → Permᴰ xs ys → IsDistinct (names xs) → sort_by_name xs ≡ sort_by_name ys
unfolding sort_by_name
sort-perm Permᴰ.nil h = refl
sort-perm (Permᴰ.cons e p) h = ap₂ insert_by_name e (sort-perm p h.1)
sort-perm (Permᴰ.swap {a} {b} {l = l} e f) h =
    insert_comm a b (sort_by_name l) h.0.0
    ∙ ap₂ insert_by_name f (ap (λ x. insert_by_name x (sort_by_name l)) e)
sort-perm (Permᴰ.trans p q) h = sort-perm p h ∙ sort-perm q (IsDistinct-perm (names-perm p) h)

-- The keys of a map are distinct.
abbrev pub keys : Dict Text → List Text
keys [] = []
keys ((k, v) ∷ m) = k ∷ keys m

-- The variable of an accepted entry.
unfoldable pub to_env : Text × Text → EnvVar
to_env (k, v) = record { name = k; value = v }

check_entry-eq : (k v : Text) {e : EnvVar} → check_entry k v ≡ ok e → e ≡ to_env (k, v)
unfolding check_entry to_env
check_entry-eq k v h = ground arith

-- The entry passes the checks.
abbrev pub Passes : Text × Text → Type 0
Passes e = check_entry e.0 e.1 ≡ ok (to_env e)

pub check_entries_sound :
    (m : Dict Text) {es : List EnvVar}
    → check_entries m ≡ ok es
    → All Passes m × (es ≡ map to_env m)
unfolding check_entries
check_entries_sound [] h = (tt, cc)
check_entries_sound ((k, v) ∷ m) h =
    let (e, p, h1) = bind-eq-ok (check_entry k v) (λ e. check_entries m >>= λ es. ok (e ∷ es)) h in
    let (es, q, h2) = bind-eq-ok (check_entries m) (λ es. ok (e ∷ es)) h1 in
    let (all, r) = check_entries_sound m q in
    let s = check_entry-eq k v p in ((p ∙ ap ok s, all), ground (arith, r, s))

check_entries_complete : (m : Dict Text) → All Passes m → check_entries m ≡ ok (map to_env m)
unfolding check_entries
check_entries_complete [] h = refl
check_entries_complete ((k, v) ∷ m) h = rw (h.0, check_entries_complete m h.1)

pub names-to_env : (m : Dict Text) → names (map to_env m) ≡ keys m
unfolding to_env
names-to_env [] = refl
names-to_env ((k, v) ∷ m) = ap (◌∷◌ k) (names-to_env m)

map-to_env-perm : {m n : Dict Text} → Permᴰ m n → Permᴰ (map to_env m) (map to_env n)
map-to_env-perm Permᴰ.nil = Permᴰ.nil
map-to_env-perm (Permᴰ.cons e p) = Permᴰ.cons (ap to_env e) (map-to_env-perm p)
map-to_env-perm (Permᴰ.swap e f) = Permᴰ.swap (ap to_env e) (ap to_env f)
map-to_env-perm (Permᴰ.trans p q) = Permᴰ.trans (map-to_env-perm p) (map-to_env-perm q)

-- Whatever the order in which the entries of the map (whose keys are distinct) are visited, an
-- accepted annotation gives the same variables in the same order.
pub decoded_env-perm :
    (m n : Dict Text) {es : List EnvVar}
    → Permᴰ m n
    → IsDistinct (keys m)
    → decoded_env (some m) ≡ ok es
    → decoded_env (some n) ≡ ok es
unfolding decoded_env
decoded_env-perm m n p d h =
    let (xs, c, e) = bind-eq-ok (check_entries m) (λ xs. ok (sort_by_name xs)) h in
    let (all, x) = check_entries_sound m c in
    let same = sort-perm (map-to_env-perm p) (subst IsDistinct (sym (names-to_env m)) d) in
    rw (check_entries_complete n (All-perm Passes p all))
      (ap ok (sym same ∙ ap sort_by_name (sym x)) ∙ e)

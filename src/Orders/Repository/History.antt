-- ===== src/Orders/Repository/History.antt =====
-- What the order store remembers: the calls of the repository as steps, the invariant of every
-- reachable store, and the history of versions that only the purge shortens.
use silberloeffel_catering.Common.{
  ℕ, ◌≡◌, refl, subst, Option, none, some, arith, ◌∙◌, ap, is_some, not, opt_eq, ◌&&◌, opt_eq→eq,
  true, false, Bool-cases, ◌==◌, inl, inr,
}
use silberloeffel_catering.Common.Dict.{lookup, insert, lookup-insert}
use silberloeffel_catering.Common.Results.{ok}
use silberloeffel_catering.Orders.Model.{
  DateTime, Order, OrderVersion, OperationalContext, same_version, same_version_sound,
}
use silberloeffel_catering.Orders.Repository.{
  OrderStore, empty_store, save_order_with_initial_version, update_order, append_order_version,
  update_order_version, purge_order,
}
use silberloeffel_catering.Orders.Repository.Consistency.{
  IsConsistent, save_order_with_initial_version-ok, append_order_version-ok, update_order-ok,
  update_order_version-ok, save_order_with_initial_version-IsConsistent, update_order-IsConsistent,
  append_order_version-IsConsistent, update_order_version-IsConsistent, purge_order-IsConsistent,
}

-- One successful call of a business method.
pub data Step (s s' : OrderStore) : Type 0 where
  saved :
      (order : Order) (version : OrderVersion) (context : Option OperationalContext)
      → save_order_with_initial_version order version context s ≡ ok s'
      → Step s s'
  updated : (order : Order) → update_order order s ≡ ok s' → Step s s'
  appended :
      (order : Order) (version : OrderVersion) (context : Option OperationalContext)
      → append_order_version order version context s ≡ ok s'
      → Step s s'
  confirmed : (version : OrderVersion) → update_order_version version s ≡ ok s' → Step s s'

-- A run of business methods.
pub data Steps (s : OrderStore) : OrderStore → Type 0 where
  done : Steps s s
  more : {t u : OrderStore} → Steps s t → Step t u → Steps s u

-- A run that also uses the maintenance purge.
pub data Reach : OrderStore → Type 0 where
  start : Reach empty_store
  call : {s t : OrderStore} → Reach s → Step s t → Reach t
  purged : {s t : OrderStore} (order_id : ℕ) → Reach s → purge_order order_id s ≡ ok t → Reach t

pub Step-IsConsistent : {s s' : OrderStore} → Step s s' → IsConsistent s → IsConsistent s'
Step-IsConsistent {s} {s'} (saved o v x h) c =
    save_order_with_initial_version-IsConsistent o v x s s' c h
Step-IsConsistent {s} {s'} (updated o h) c = update_order-IsConsistent o s s' c h
Step-IsConsistent {s} {s'} (appended o v x h) c = append_order_version-IsConsistent o v x s s' c h
Step-IsConsistent {s} {s'} (confirmed v h) c = update_order_version-IsConsistent v s s' c h

empty_store-IsConsistent : IsConsistent empty_store
unfolding lookup
empty_store-IsConsistent = record {
  order_key = λ k o e. ground arith;
  version_key = λ k v e. ground arith;
  version_order = λ k v e. ground arith;
  version_positive = λ k v e. ground arith;
  version_numbered = λ j k v w e f same number. ground arith;
  candidate_owned = λ k o e. ground arith;
  effective_owned = λ k o e. ground arith;
}

-- Every order store that the repository methods, the purge included, can reach from the empty one
-- is consistent.
pub Reach-IsConsistent : {s : OrderStore} → Reach s → IsConsistent s
Reach-IsConsistent start = empty_store-IsConsistent
Reach-IsConsistent (call r st) = Step-IsConsistent st (Reach-IsConsistent r)
Reach-IsConsistent {s} (purged {s = t} order_id r h) =
    purge_order-IsConsistent order_id t s (Reach-IsConsistent r) h

-- The later version is the earlier snapshot: every field is the same, but that a kitchen
-- confirmation may have been added where there was none.
pub record Preserves (v v' : OrderVersion) : Type 0 where
  pub snapshot : record v { kitchen_print_confirmed_at = v'.kitchen_print_confirmed_at } ≡ v'
  pub confirmation :
      (t : DateTime)
      → v.kitchen_print_confirmed_at ≡ some t
      → v'.kitchen_print_confirmed_at ≡ some t

Preserves-refl : (v : OrderVersion) → Preserves v v
Preserves-refl v = record { snapshot = refl; confirmation = λ t e. e }

Preserves-trans : {u v w : OrderVersion} → Preserves u v → Preserves v w → Preserves u w
Preserves-trans {u} {v} {w} p q = record {
  snapshot =
      ap
        (λ (x : OrderVersion). record x {
          kitchen_print_confirmed_at = w.kitchen_print_confirmed_at;
        })
        p.snapshot
      ∙ q.snapshot;
  confirmation = λ t e. q.confirmation t (p.confirmation t e);
}

-- What became of a stored version.
abbrev pub Kept : ℕ → OrderVersion → OrderStore → Type 0
Kept k v s = (v' : OrderVersion) × (lookup k s.versions ≡ some v') × Preserves v v'

-- A version filed under a new identifier leaves the others where they are.
Kept-filed :
    (k : ℕ) (v version : OrderVersion) (s s' : OrderStore)
    → lookup version.order_version_id s.versions ≡ none
    → s'.versions ≡ insert version.order_version_id version s.versions
    → lookup k s.versions ≡ some v
    → Kept k v s'
Kept-filed k v version s s' fresh versions e = (
  v,
  rw versions (ground (arith, lookup-insert version.order_version_id k version s.versions)),
  Preserves-refl v,
)

update_order_version-Preserves :
    (version e : OrderVersion)
    → same_version
        (record e { kitchen_print_confirmed_at = version.kitchen_print_confirmed_at })
        version
      ≡ true
    → (is_some e.kitchen_print_confirmed_at
        && not (opt_eq version.kitchen_print_confirmed_at e.kitchen_print_confirmed_at))
      ≡ false
    → Preserves e version
update_order_version-Preserves version e same guard = record {
  snapshot = same_version_sound _ _ same;
  confirmation = λ t f.
      ground (arith, opt_eq→eq version.kitchen_print_confirmed_at e.kitchen_print_confirmed_at);
}

Step-Kept :
    {s s' : OrderStore} (k : ℕ) (v : OrderVersion)
    → Step s s'
    → lookup k s.versions ≡ some v
    → Kept k v s'
Step-Kept {s} {s'} k v (saved o w x h) e =
    let r = save_order_with_initial_version-ok o w x s s' h in Kept-filed k v w s s' r.3 r.7 e
Step-Kept {s} {s'} k v (updated o h) e =
    let r = update_order-ok o s s' h in (v, rw r.3 e, Preserves-refl v)
Step-Kept {s} {s'} k v (appended o w x h) e =
    let r = append_order_version-ok o w x s s' h in Kept-filed k v w s s' r.3 r.8 e
Step-Kept {s} {s'} k v (confirmed w h) e =
    let r = update_order_version-ok w s s' h in
    elim (Bool-cases (w.order_version_id == k)) [
      | inl hit ↦ (
        w,
        rw r.4 (ground (arith, lookup-insert w.order_version_id k w s.versions)),
        subst (λ (x : OrderVersion). Preserves x w) (ground arith)
            (update_order_version-Preserves w r.0 r.2 r.3),
      )
      | inr miss ↦ (
        v,
        rw r.4 (ground (arith, lookup-insert w.order_version_id k w s.versions)),
        Preserves-refl v,
      )
    ]

-- Over any run of the business methods of the order repository a stored version keeps its
-- identifier and its snapshot, and a recorded kitchen confirmation keeps its timestamp.
pub Steps-Kept :
    {s s' : OrderStore} (k : ℕ) (v : OrderVersion)
    → Steps s s'
    → lookup k s.versions ≡ some v
    → Kept k v s'
Steps-Kept k v done e = (v, e, Preserves-refl v)
Steps-Kept k v (more r st) e =
    let (w, f, p) = Steps-Kept k v r e in
    let (x, g, q) = Step-Kept k w st f in (x, g, Preserves-trans p q)

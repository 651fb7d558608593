-- ===== src/Trunk/Rotation.antt =====
-- The order in which the trunks are tried: apps/telephony-agent/src/trunk-pool.ts.
use mathlib.Core.List.{Perm}
use mathlib.Core.List.Perm
use powerotp.Prelude.{
  ℕ, ◌≤◌, ◌≡◌, refl, ap, ◌∙◌, inl, inr, Bool, true, false, not, ◌&&◌, ◌||◌, none, List, [], ◌∷◌,
  map, arith, leb, ◌==◌, if◌then◌else◌, Bool-cases, filter, includes, exists, Text, text_eq, get,
  get-retain, nat_eq,
}
use powerotp.Trunk.{
  Pool, update_trunk_ids, is_down, last_tried_at, insert_by, sort_by, pick_healthy_trunks,
  last_tried, is_past, report, HealthReport, snapshot, down_until_of,
}

-- Each item's key is at most that of every later one.
abbrev pub IsLowest : (Text → ℕ) → ℕ → List Text → Type 0
IsLowest key n [] = Unit
IsLowest key n (a ∷ rest) = (n ≤ key a) × IsLowest key n rest

abbrev pub IsSortedBy : (Text → ℕ) → List Text → Type 0
IsSortedBy key [] = Unit
IsSortedBy key (a ∷ rest) = IsLowest key (key a) rest × IsSortedBy key rest

IsLowest-trans :
    (key : Text → ℕ) (m n : ℕ) (l : List Text) → m ≤ n → IsLowest key n l → IsLowest key m l
IsLowest-trans key m n [] h low = tt
IsLowest-trans key m n (a ∷ l) h low = (omega arith, IsLowest-trans key m n l h low.1)

insert_by-IsLowest :
    (key : Text → ℕ) (n : ℕ) (a : Text) (l : List Text)
    → n ≤ key a
    → IsLowest key n l
    → IsLowest key n (insert_by key a l)
unfolding insert_by
insert_by-IsLowest key n a [] h low = (h, tt)
insert_by-IsLowest key n a (b ∷ l) h low = ground (arith, insert_by-IsLowest key n a l h low.1)

insert_by-IsSortedBy :
    (key : Text → ℕ) (a : Text) (l : List Text)
    → IsSortedBy key l
    → IsSortedBy key (insert_by key a l)
unfolding insert_by
insert_by-IsSortedBy key a [] h = (tt, tt)
insert_by-IsSortedBy key a (b ∷ l) h = ground (
  arith,
  insert_by-IsSortedBy key a l h.1,
  insert_by-IsLowest key (key b) a l,
  IsLowest-trans key (key a) (key b) l,
)

sort_by-IsSortedBy : (key : Text → ℕ) (l : List Text) → IsSortedBy key (sort_by key l)
unfolding sort_by
sort_by-IsSortedBy key [] = tt
sort_by-IsSortedBy key (a ∷ l) =
    insert_by-IsSortedBy key a (sort_by key l) (sort_by-IsSortedBy key l)

insert_by-perm : (key : Text → ℕ) (a : Text) (l : List Text) → Perm (insert_by key a l) (a ∷ l)
unfolding insert_by
insert_by-perm key a [] = Perm.refl _
insert_by-perm key a (b ∷ l) = elim (Bool-cases (leb (key a) (key b))) [
  | inl le ↦ rw le (Perm.refl _)
  | inr gt ↦ rw gt (Perm.trans (Perm.cons b (insert_by-perm key a l)) (Perm.swap a b l))
]

sort_by-perm : (key : Text → ℕ) (l : List Text) → Perm (sort_by key l) l
unfolding sort_by
sort_by-perm key [] = Perm.refl _
sort_by-perm key (a ∷ l) =
    Perm.trans (insert_by-perm key a (sort_by key l)) (Perm.cons a (sort_by-perm key l))

-- The items with one key.
abbrev pub with_key : (Text → ℕ) → ℕ → List Text → List Text
with_key key n = filter (λ a. key a == n)

insert_by_stable :
    (key : Text → ℕ) (n : ℕ) (a : Text) (l : List Text)
    → with_key key n (insert_by key a l) ≡ with_key key n (a ∷ l)
unfolding insert_by
insert_by_stable key n a [] = refl
insert_by_stable key n a (b ∷ l) = ground (arith, insert_by_stable key n a l)

sort_by_stable :
    (key : Text → ℕ) (n : ℕ) (l : List Text) → with_key key n (sort_by key l) ≡ with_key key n l
unfolding sort_by
sort_by_stable key n [] = refl
sort_by_stable key n (a ∷ l) =
    insert_by_stable key n a (sort_by key l) ∙ ground (arith, sort_by_stable key n l)

-- The configured trunks that are not down.
abbrev pub healthy : Pool → ℕ → List Text
healthy p now = filter (λ id. not (is_down p id now)) p.trunk_ids

-- The trunks are tried from the least recently tried one on: the pick is sorted by the time of the
-- last try, has the healthy configured trunks as often as the configuration has them, and keeps the
-- configured order among those that were last tried at one time.
pub pick_order :
    (p : Pool) (now : ℕ)
    → IsSortedBy (last_tried_at p) (pick_healthy_trunks p now)
      × Perm (pick_healthy_trunks p now) (healthy p now)
      × ((at : ℕ)
          → with_key (last_tried_at p) at (pick_healthy_trunks p now)
            ≡ with_key (last_tried_at p) at (healthy p now))
unfolding pick_healthy_trunks
pick_order p now = (
  sort_by-IsSortedBy (last_tried_at p) (healthy p now),
  sort_by-perm (last_tried_at p) (healthy p now),
  λ at. sort_by_stable (last_tried_at p) at (healthy p now),
)

includes-insert_by :
    (key : Text → ℕ) (a : Text) (l : List Text) (x : Text)
    → includes (insert_by key a l) x ≡ includes (a ∷ l) x
unfolding insert_by
includes-insert_by key a [] x = refl
includes-insert_by key a (b ∷ l) x = ground (arith, includes-insert_by key a l x)

includes-sort_by :
    (key : Text → ℕ) (l : List Text) (x : Text) → includes (sort_by key l) x ≡ includes l x
unfolding sort_by
includes-sort_by key [] x = refl
includes-sort_by key (a ∷ l) x =
    includes-insert_by key a (sort_by key l) x ∙ ap (λ b. a == x || b) (includes-sort_by key l x)

abbrev pub reports_healthy : Text → HealthReport → Bool
reports_healthy id r = r.id == id && r.healthy

includes-healthy :
    (p : Pool) (now : ℕ) (id : Text) (l : List Text)
    → includes (filter (λ j. not (is_down p j now)) l) id
      ≡ exists (reports_healthy id) (map (report p now) l)
unfolding report
includes-healthy p now id [] = refl
includes-healthy p now id (j ∷ l) = ground (arith, includes-healthy p now id l)

-- The report to the control plane agrees with the rotation: a trunk is picked exactly when the
-- snapshot of the same moment has a healthy entry for it.
pub pick-snapshot :
    (p : Pool) (now : ℕ) (id : Text)
    → includes (pick_healthy_trunks p now) id ≡ exists (reports_healthy id) (snapshot p now)
unfolding pick_healthy_trunks snapshot
pick-snapshot p now id =
    includes-sort_by (last_tried_at p) (healthy p now) id ∙ includes-healthy p now id p.trunk_ids

health-update :
    (p : Pool) (ids : List Text) (id : Text)
    → get id (update_trunk_ids p ids).health ≡ (if includes ids id then get id p.health else none)
unfolding update_trunk_ids
health-update p ids id = get-retain (includes ids) id p.health

-- A new configuration keeps the health of a trunk that it lists.
pub update_keeps :
    (p : Pool) (ids : List Text) (id : Text) (now : ℕ)
    → includes ids id ≡ true
    → let q = update_trunk_ids p ids in
      (is_down q id now ≡ is_down p id now) × (last_tried_at q id ≡ last_tried_at p id)
unfolding is_down last_tried_at
update_keeps p ids id now h =
    let kept = health-update p ids id ∙ ap (λ b. if b then get id p.health else none) h in
    (ap (λ o. is_past now (down_until_of o)) kept, ap last_tried kept)

-- A trunk that a configuration leaves out is forgotten: when a later one lists it again, it is not
-- down and counts as never tried.
pub update_forgets :
    (p : Pool) (ids later : List Text) (id : Text) (now : ℕ)
    → includes ids id ≡ false
    → let q = update_trunk_ids (update_trunk_ids p ids) later in
      (is_down q id now ≡ false) × (last_tried_at q id ≡ 0)
unfolding is_down last_tried_at
update_forgets p ids later id now h =
    let gone : get id (update_trunk_ids (update_trunk_ids p ids) later).health ≡ none =
      ground (arith, h, health-update p ids id, health-update (update_trunk_ids p ids) later id) in
    (ap (λ o. is_past now (down_until_of o)) gone, ap last_tried gone)

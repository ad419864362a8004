-- ===== src/StatusPage/Ownership.antt =====
-- Backend/src/controllers/statusPage.controller.js: the monitors that a status page may show.
use devops_hackathon.Prelude.{
  ℕ, ◌≡◌, refl, ap, sym, subst, ◌∙◌, Bool, true, false, Option, none, some, List, [], ◌∷◌, map,
  ◌&&◌, not, ◌==◌, ltb, ◌≤◌, arith, length, All, inl, inr, Bool-cases, Option-cases, or_default,
}
use devops_hackathon.Prelude.Texts.{Text, text_eq, text_eq-path, elem, filter, any}
use devops_hackathon.Http.{returned}
use devops_hackathon.Monitor.{Monitor}
use devops_hackathon.StatusPage.{
  ObjectIds, Given, absent, no_array, listed, find_first, unique, owned_among, unless_foreign,
  unless_invalid, resolve_owned_monitors, Page, Body,
}
use devops_hackathon.StatusPage.Manage.{Outside, Db, new_page, Patch, page_patch}
use devops_hackathon.StatusPage.Stages.{new_page-stages, page_patch-stages}

-- `String(id)` is read back as that id.
abbrev pub RoundTrips : ObjectIds → Type 0
RoundTrips o = (id : ℕ) → o.object_id (o.show id) ≡ id

-- The id is that of a monitor of the owner.
abbrev pub is_owned : List Monitor → (owner id : ℕ) → Bool
is_owned ms owner id = any (λ m. (m.user_id == owner) && (m.id == id)) ms

pub find_first-none :
    {A : Type 0} (p : A → Bool) (xs : List A) → find_first p xs ≡ none → All (λ x. p x ≡ false) xs
find_first-none p [] h = tt
find_first-none p (x ∷ xs) h = elim (Bool-cases (p x)) [
  | inl e ↦ ground (arith, e)
  | inr e ↦ (e, find_first-none p xs (ground (arith, e)))
]

shown_id :
    (o : ObjectIds)
    → RoundTrips o
    → (m : Monitor) (id : Text) → text_eq (o.show m.id) id ≡ true
    → m.id ≡ o.object_id id
shown_id o law m id h = sym (law m.id) ∙ ap o.object_id (text_eq-path (o.show m.id) id h)

shown_owned :
    (o : ObjectIds)
    → RoundTrips o
    → (ms : List Monitor) (owner : ℕ) (q : Monitor → Bool) (id : Text)
    → elem id (map (λ m. o.show m.id) (filter (λ m. (m.user_id == owner) && q m) ms)) ≡ true
    → is_owned ms owner (o.object_id id) ≡ true
shown_owned o law [] owner q id h = h
shown_owned o law (m ∷ ms) owner q id h =
    ground (arith, shown_owned o law ms owner q id, shown_id o law m id)

All-owned :
    (o : ObjectIds)
    → RoundTrips o
    → (ms : List Monitor) (owner : ℕ) (q : Monitor → Bool) (ids : List Text)
    → All
        (λ id.
          not (elem id (map (λ m. o.show m.id) (filter (λ m. (m.user_id == owner) && q m) ms)))
          ≡ false)
        ids
    → All (λ id. is_owned ms owner id ≡ true) (map o.object_id ids)
All-owned o law ms owner q [] h = tt
All-owned o law ms owner q (id ∷ ids) h =
    (shown_owned o law ms owner q id (ground (arith, h.0)), All-owned o law ms owner q ids h.1)

unless_foreign_owned :
    (o : ObjectIds)
    → RoundTrips o
    → (ms : List Monitor) (owner : ℕ) (ids : List Text) (r : List ℕ)
    → unless_foreign o (map (λ m. o.show m.id) (owned_among o ms owner ids)) ids ≡ returned (some r)
    → (r ≡ map o.object_id ids) × All (λ id. is_owned ms owner id ≡ true) r
unless_foreign_owned o law ms owner ids r h =
    let owned = map (λ m. o.show m.id) (owned_among o ms owner ids) in
    let foreign : Text → Bool = λ id. not (elem id owned) in
    elim (Option-cases (find_first foreign ids)) [
      | inl e ↦
          let same : r ≡ map o.object_id ids = ground (arith, e, h) in
          (
            same,
            subst (λ r. All (λ id. is_owned ms owner id ≡ true) r) (sym same)
                (All-owned o law ms owner (λ m. any (λ id. o.object_id id == m.id) ids) ids
                  (find_first-none foreign ids e)),
          )
      | inr (id, e) ↦ ground (arith, e, h)
    ]

unless_invalid_owned :
    (o : ObjectIds)
    → RoundTrips o
    → (ms : List Monitor) (owner : ℕ) (ids : List Text) (r : List ℕ)
    → unless_invalid o ms owner ids ≡ returned (some r)
    → (r ≡ map o.object_id ids) × All (λ id. is_owned ms owner id ≡ true) r
unless_invalid_owned o law ms owner ids r h =
    elim (Option-cases (find_first (λ id. not (o.is_valid_object_id id)) ids)) [
      | inl e ↦ unless_foreign_owned o law ms owner ids r (rw (e, unless_invalid) at h)
      | inr (id, e) ↦ ground (arith, e, h)
    ]

-- Ids that are read back as they are shown: what `resolveOwnedMonitors` returns is the listed ids,
-- each once, in the order of their first occurrence, at most 50 of them are listed, and every one is
-- that of a monitor of the owner.
pub resolve_owned_monitors-is_owned :
    (o : ObjectIds)
    → RoundTrips o
    → (ms : List Monitor) (owner : ℕ) (ids : List Text) (r : List ℕ)
    → resolve_owned_monitors o ms owner (listed ids) ≡ returned (some r)
    → (r ≡ map o.object_id (unique ids))
      × (length ids ≤ 50)
      × All (λ id. is_owned ms owner id ≡ true) r
unfolding resolve_owned_monitors
resolve_owned_monitors-is_owned o law ms owner ids r h = elim (Bool-cases (ltb 50 (length ids))) [
  | inl e ↦ ground (arith, e, h)
  | inr e ↦
      let done = unless_invalid_owned o law ms owner (unique ids) r (rw e at h) in
      (done.0, ground (arith, e), done.1)
]

pub resolved_owned :
    (o : ObjectIds)
    → RoundTrips o
    → (ms : List Monitor) (owner : ℕ) (g : Given) (r : Option (List ℕ))
    → resolve_owned_monitors o ms owner g ≡ returned r
    → All (λ id. is_owned ms owner id ≡ true) (or_default r [])
resolved_owned o law ms owner g none h = tt
resolved_owned o law ms owner absent (some r) h = unfold resolve_owned_monitors in ground arith
resolved_owned o law ms owner no_array (some r) h = unfold resolve_owned_monitors in ground arith
resolved_owned o law ms owner (listed ids) (some r) h =
    (resolve_owned_monitors-is_owned o law ms owner ids r h).2

-- Ids that are read back as they are shown: whatever monitors a created page shows are monitors of
-- its owner at the time of the checks, and the page is the caller's.
pub new_page-is_owned :
    (o : Outside)
    → RoundTrips o.ids
    → (owner : ℕ) (body : Body) (db : Db) (new_id now : ℕ) (p : Page)
    → new_page o owner body db new_id now ≡ returned p
    → (p.user_id ≡ owner) × All (λ id. is_owned db.monitors owner id ≡ true) p.monitors
new_page-is_owned o law owner body db new_id now p h =
    let (slug, monitors, _, _, _, e, same) = new_page-stages o owner body db new_id now p h in
    rw same (refl, resolved_owned o.ids law db.monitors owner body.monitors monitors e)

-- The same for an edit: the monitors that it puts on the page, if any, are the caller's own.
pub page_patch-is_owned :
    (o : Outside)
    → RoundTrips o.ids
    → (owner : ℕ) (page_id : Text) (body : Body) (db : Db) (q : Patch)
    → page_patch o owner page_id body db ≡ returned q
    → All (λ id. is_owned db.monitors owner id ≡ true) (or_default q.monitors [])
page_patch-is_owned o law owner page_id body db q h =
    let (slug, monitors, _, _, _, e, same) = page_patch-stages o owner page_id body db q h in
    rw same (resolved_owned o.ids law db.monitors owner body.monitors monitors e)

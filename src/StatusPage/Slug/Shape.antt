-- ===== src/StatusPage/Slug/Shape.antt =====
-- Backend/src/models/statusPage.model.js: the shape of what `slugify` returns, and `slugify` of a slug.
use devops_hackathon.Prelude.{
  ℕ, zero, suc, ◌≡◌, refl, Bool, true, false, [], ◌∷◌, ◌&&◌, not, ◌≤◌, if◌then◌else◌, arith, length,
}
use devops_hackathon.Prelude.Texts.{
  Text, trim, take, filter, drop_start, drop_end, is_space, length-take, take_short,
  length-drop_end,
}
use devops_hackathon.StatusPage.Slug.{Unicode, is_word, is_dash, unmarked, dashed, slugify}

-- Words of `[a-z0-9]` with one dash between them; the flag says that no dash may come first.
abbrev pub spaced : Bool → Text → Bool
spaced b [] = true
spaced b (c ∷ cs) = if is_word c then spaced false cs else (is_dash c && not b) && spaced true cs

spaced_weaken : (b : Bool) (t : Text) → spaced true t ≡ true → spaced b t ≡ true
spaced_weaken b [] h = refl
spaced_weaken b (c ∷ cs) h = ground arith

dashed-spaced : (b : Bool) (t : Text) → spaced b (dashed b t) ≡ true
dashed-spaced b [] = refl
dashed-spaced b (c ∷ cs) = ground (arith, dashed-spaced false cs, dashed-spaced true cs)

drop_start_same : (t : Text) → spaced true t ≡ true → drop_start is_dash t ≡ t
drop_start_same [] h = refl
drop_start_same (c ∷ cs) h = ground arith

drop_start-spaced : (t : Text) → spaced false t ≡ true → spaced true (drop_start is_dash t) ≡ true
drop_start-spaced [] h = refl
drop_start-spaced (c ∷ cs) h = ground (arith, drop_start_same cs)

drop_end-spaced :
    (p : ℕ → Bool) (b : Bool) (t : Text) → spaced b t ≡ true → spaced b (drop_end p t) ≡ true
drop_end-spaced p b [] h = refl
drop_end-spaced p b (c ∷ cs) h =
    ground (arith, drop_end-spaced p false cs, drop_end-spaced p true cs)

take-spaced : (n : ℕ) (b : Bool) (t : Text) → spaced b t ≡ true → spaced b (take n t) ≡ true
take-spaced zero b t h = refl
take-spaced (suc n) b [] h = refl
take-spaced (suc n) b (c ∷ cs) h = ground (arith, take-spaced n false cs, take-spaced n true cs)

dashed_same : (b : Bool) (t : Text) → spaced b t ≡ true → dashed b t ≡ t
dashed_same b [] h = refl
dashed_same b (c ∷ cs) h = ground (arith, dashed_same false cs, dashed_same true cs)

unmarked_same : (b : Bool) (t : Text) → spaced b t ≡ true → filter unmarked t ≡ t
unmarked_same b [] h = refl
unmarked_same b (c ∷ cs) h = ground (arith, unmarked_same false cs, unmarked_same true cs)

drop_start_spaces : (b : Bool) (t : Text) → spaced b t ≡ true → drop_start is_space t ≡ t
drop_start_spaces b [] h = refl
drop_start_spaces b (c ∷ cs) h = ground arith

not_space : (b : Bool) (c : ℕ) (cs : Text) → spaced b (c ∷ cs) ≡ true → is_space c ≡ false
not_space b c cs h = ground arith

spaced_tail : (b : Bool) (c : ℕ) (cs : Text) → spaced b (c ∷ cs) ≡ true → spaced false cs ≡ true
spaced_tail b c cs h = ground (arith, spaced_weaken false cs)

drop_end_keep :
    (p : ℕ → Bool) (c : ℕ) (cs : Text)
    → p c ≡ false
    → drop_end p cs ≡ cs
    → drop_end p (c ∷ cs) ≡ c ∷ cs
drop_end_keep p c [] h e = rw h refl
drop_end_keep p c (d ∷ ds) h e = rw e refl

drop_end_spaces : (t : Text) → spaced false t ≡ true → drop_end is_space t ≡ t
drop_end_spaces [] h = refl
drop_end_spaces (c ∷ cs) h =
    drop_end_keep is_space c cs (not_space false c cs h)
      (drop_end_spaces cs (spaced_tail false c cs h))

-- What is left of a slug when the dash that its cut may have left at the end goes.
abbrev pub without_last_dash : Text → Text
without_last_dash t = drop_end is_dash t

-- The part of `slugify` after the Unicode tables.
abbrev cut : Text → Text
cut t = take 60 (without_last_dash (drop_start is_dash (dashed false (trim t))))

slugify_again : (t : Text) → spaced true t ≡ true → length t ≤ 60 → cut t ≡ without_last_dash t
slugify_again t h n =
    rw
      (
        drop_start_spaces true t h,
        drop_end_spaces t (spaced_weaken false t h),
        dashed_same false t (spaced_weaken false t h),
        drop_start_same t h,
      )
      (take_short 60 (without_last_dash t) (ground (arith, length-drop_end is_dash t)))

-- For every text, the slug has at most 60 characters, each of `a-z`, `0-9` or `-`; it begins with no
-- dash and has no two dashes in a row, whatever the Unicode tables are.
pub slugify-shape :
    (u : Unicode) (t : Text) → (spaced true (slugify u t) ≡ true) × (length (slugify u t) ≤ 60)
unfolding slugify
slugify-shape u t =
    let folded = trim (u.to_lower_case (filter unmarked (u.normalize t))) in
    let before = dashed false folded in
    (
      take-spaced 60 true (drop_end is_dash (drop_start is_dash before)) (
          drop_end-spaced is_dash true (drop_start is_dash before)
            (drop_start-spaced before (dashed-spaced false folded))),
      length-take 60 (drop_end is_dash (drop_start is_dash before)),
    )

-- Unicode tables that leave a text of `a-z`, `0-9` and `-` as it is.
abbrev pub KeepsSlugs : Unicode → Type 0
KeepsSlugs u = (t : Text) → spaced true t ≡ true → (u.normalize t ≡ t) × (u.to_lower_case t ≡ t)

pub slugify_slug :
    (u : Unicode) (same : KeepsSlugs u) (t : Text)
    → spaced true t ≡ true
    → length t ≤ 60
    → slugify u t ≡ without_last_dash t
unfolding slugify
slugify_slug u same t h n =
    rw ((same t h).0, unmarked_same true t h, (same t h).1) (slugify_again t h n)

-- Unicode tables that leave a text of `a-z`, `0-9` and `-` as it is: the slug of a slug is that slug
-- without the dash that it may end in.
pub slugify_twice :
    (u : Unicode) (same : KeepsSlugs u) (t : Text)
    → slugify u (slugify u t) ≡ without_last_dash (slugify u t)
slugify_twice u same t =
    slugify_slug u same (slugify u t) (slugify-shape u t).0 (slugify-shape u t).1

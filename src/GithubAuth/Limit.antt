-- ===== src/GithubAuth/Limit.antt =====
-- The limit of ten projects: `can_upload_project`, `add_project` and `remove_project` of
-- server/src/github_auth.rs.
use faasta.Prelude.{
  ◌≤◌, Text, true, false, not, ◌&&◌, ◌||◌, Option, none, some, List, [], ◌∷◌, ◌++◌, ◌≡◌, refl,
  subst, ok, err, arith, length, length-append, leb, text_eq, text_eq_iff, Option-cases, inl, inr,
  Bool-cases,
}
use faasta.Prelude.Dict
use faasta.Prelude.Dict.{Dict, lookup-insert}
use faasta.Db.{Faults}
use faasta.Codec.{Codec}
use faasta.GithubAuth.{
  UserData, GithubAuth, max_projects_per_user, contains, retain_ne, can_upload_project, user_or_new,
  with_project, without_project, save_bytes, store_user, add_project, remove_project,
}

abbrev pub Nodup : List Text → Type 0
Nodup [] = Unit
Nodup (p ∷ ps) = (contains ps p ≡ false) × Nodup ps

abbrev pub Fits : UserData → Type 0
Fits d = (length d.projects ≤ max_projects_per_user) × Nodup d.projects

-- Every user's projects are ten at most, and none is there twice.
pub record WithinLimit (users : Dict UserData) : Type 0 where
  pub at_user : (u : Text) (d : UserData) → Dict.lookup u users ≡ some d → Fits d

contains-append :
    (ps qs : List Text) (p : Text) → contains (ps ++ qs) p ≡ (contains ps p || contains qs p)
contains-append [] qs p = refl
contains-append (q ∷ ps) qs p = ground (arith, contains-append ps qs p)

Nodup-concat : (ps : List Text) (p : Text) → Nodup ps → contains ps p ≡ false → Nodup (ps ++ p ∷ [])
Nodup-concat [] p h k = (refl, tt)
Nodup-concat (q ∷ ps) p (fresh, h) k =
    ground
      (arith, Nodup-concat ps p h, contains-append ps (p ∷ []) q, text_eq_iff p q, text_eq_iff q p)

contains-retain_ne :
    (p q : Text) (ps : List Text) → contains ps q ≡ false → contains (retain_ne p ps) q ≡ false
unfolding retain_ne
contains-retain_ne p q [] h = refl
contains-retain_ne p q (r ∷ ps) h = ground (arith, contains-retain_ne p q ps)

Nodup-retain_ne : (p : Text) (ps : List Text) → Nodup ps → Nodup (retain_ne p ps)
unfolding retain_ne
Nodup-retain_ne p [] h = tt
Nodup-retain_ne p (q ∷ ps) (fresh, h) =
    ground (arith, Nodup-retain_ne p ps h, contains-retain_ne p q ps)

length-retain_ne : (p : Text) (ps : List Text) → length (retain_ne p ps) ≤ length ps
unfolding retain_ne
length-retain_ne p [] = omega arith
length-retain_ne p (q ∷ ps) = ground (arith, length-retain_ne p ps)

insert-WithinLimit :
    (u : Text) (d : UserData) (users : Dict UserData)
    → WithinLimit users
    → Fits d
    → WithinLimit (Dict.insert u d users)
insert-WithinLimit u d users h fits = record {
  at_user = λ v e found. elim (Bool-cases (text_eq u v)) [
    | inl same ↦ subst Fits {x = d} {y = e} (ground (arith, lookup-insert v u d users)) fits
    | inr other ↦ h.at_user v e (ground (arith, lookup-insert v u d users))
  ];
}

user_or_new-Fits :
    (u : Text) (users : Dict UserData) (o : Option UserData)
    → WithinLimit users
    → Dict.lookup u users ≡ o
    → Fits (user_or_new u o)
user_or_new-Fits u users none h e = (omega arith, tt)
user_or_new-Fits u users (some d) h e = h.at_user u d e

with_project-Fits :
    (p : Text) (d : UserData)
    → Fits d
    → (leb max_projects_per_user (length d.projects) && not (contains d.projects p)) ≡ false
    → Fits (with_project p d)
unfolding with_project
with_project-Fits p d (few, distinct) room =
    ground (arith, Nodup-concat d.projects p distinct, length-append d.projects (p ∷ []))

without_project-Fits : (p : Text) (d : UserData) → Fits d → Fits (without_project p d)
unfolding without_project
without_project-Fits p d (few, distinct) =
    (omega (arith, length-retain_ne p d.projects), Nodup-retain_ne p d.projects distinct)

room_of_allowed :
    (u p : Text) (users : Dict UserData)
    → can_upload_project u p users ≡ true
    → (leb max_projects_per_user (length (user_or_new u (Dict.lookup u users)).projects)
        && not (contains (user_or_new u (Dict.lookup u users)).projects p))
      ≡ false
unfolding can_upload_project
room_of_allowed u p users h = ground arith

module _ (codec : Codec UserData) (fault : Faults) where
  -- The map of users is written whatever becomes of the database.
  pub user_projects-store_user :
      (u : Text) (d : UserData) (s : GithubAuth)
      → (store_user codec fault u d s).1.user_projects ≡ Dict.insert u d s.user_projects
  unfolding store_user
  user_projects-store_user u d s =
      elim (codec.encode d)
        as (λ r.
          (save_bytes codec fault u r
            (record s { user_projects = Dict.insert u d s.user_projects })).1.user_projects
          ≡ Dict.insert u d s.user_projects) [ ok bytes ↦ refl | err e ↦ refl ]

  -- Where the check lets a project through and every user is within the limit with no project
  -- twice, adding it keeps them so, also when the database fails.
  pub add_project-WithinLimit :
      (u p : Text) (s : GithubAuth)
      → can_upload_project u p s.user_projects ≡ true
      → WithinLimit s.user_projects
      → WithinLimit (add_project codec fault u p s).1.user_projects
  unfolding add_project
  add_project-WithinLimit u p s allowed h =
      let old = Dict.lookup u s.user_projects in
      rw (user_projects-store_user u (with_project p (user_or_new u old)) s) (
        insert-WithinLimit u (with_project p (user_or_new u old)) s.user_projects h (
          with_project-Fits p (user_or_new u old) (user_or_new-Fits u s.user_projects old h refl)
            (room_of_allowed u p s.user_projects allowed)))

  -- Removing a project keeps them too.
  pub remove_project-WithinLimit :
      (u p : Text) (s : GithubAuth)
      → WithinLimit s.user_projects
      → WithinLimit (remove_project codec fault u p s).1.user_projects
  unfolding remove_project
  remove_project-WithinLimit u p s h = elim (Option-cases (Dict.lookup u s.user_projects)) [
    | inl missing ↦ rw (missing, remove_project) h
    | inr (d, found) ↦
        rw (found, remove_project, user_projects-store_user u (without_project p d) s)
          (insert-WithinLimit u (without_project p d) s.user_projects h
            (without_project-Fits p d (h.at_user u d found)))
  ]

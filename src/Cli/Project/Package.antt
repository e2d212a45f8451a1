-- ===== src/Cli/Project/Package.antt =====
-- Which package `get_project_info` of cli/src/run.rs finds, and what `run` leaves.
use faasta.Prelude.{
  Text, text, Bool, true, false, Option, none, some, List, [], ◌∷◌, ◌++◌, ◌≡◌, refl, sym, ap, subst,
  ok-injective, ◌∙◌, All, arith, Result, ok, err, text_eq_iff, Bool-cases, inl, inr, ◌⊎◌,
  if◌then◌else◌,
}
use faasta.Cli.Deploy.{default_artifact_path}
use faasta.Cli.Project.{
  Cargo, ◌>>=◌, and_then, or_say, ok_or_say, same_components, same_file_path, find_map, or_rest,
  name_in, text_field, get_project_info, build_project, handle_run,
}

-- The first element that has a value has the value `b`.
pub record IsFirst {A B : Type 0} (f : A → Option B) (xs : List A) (b : B) : Type 0 where
  pub passed : List A
  pub found : A
  pub rest : List A
  pub split : xs ≡ passed ++ found ∷ rest
  pub without : All (λ x. f x ≡ none) passed
  pub value : f found ≡ some b

find_map-IsFirst :
    {A B : Type 0} (f : A → Option B) (xs : List A) (b : B)
    → find_map f xs ≡ some b
    → IsFirst f xs b
find_map-IsFirst {B = B} f [] b h = cc
find_map-IsFirst {B = B} f (x ∷ xs) b h = head (find_map-IsFirst f xs b) (f x) refl h
  where
    head :
        (find_map f xs ≡ some b → IsFirst f xs b)
        → (o : Option B) → f x ≡ o
        → or_rest o (find_map f xs) ≡ some b
        → IsFirst f (x ∷ xs) b
    head ih (some c) e k = record {
      passed = [];
      found = x;
      rest = xs;
      split = refl;
      without = tt;
      value = e ∙ k;
    }
    head ih none e k =
        let tail = ih k in
        record {
          passed = x ∷ tail.passed;
          found = tail.found;
          rest = tail.rest;
          split = ap (λ l. x ∷ l) tail.split;
          without = (e, tail.without);
          value = tail.value;
        }

bind-ok :
    {A B : Type 0} {r : Result Text A} {f : A → Result Text B} (b : B)
    → (r >>= f) ≡ ok b
    → (a : A) × (r ≡ ok a) × (f a ≡ ok b)
unfolding ◌>>=◌
bind-ok {r = ok a} b h = (a, refl, h)
bind-ok {r = err e} b h = cc

or_say-ok : {A : Type 0} (what : Text) (r : Result Text A) (a : A) → or_say what r ≡ ok a → r ≡ ok a
or_say-ok what (ok b) a h = h
or_say-ok what (err e) a h = cc

ok_or_say-ok :
    {A : Type 0} (what : Text) (o : Option A) (a : A) → ok_or_say what o ≡ ok a → o ≡ some a
ok_or_say-ok what (some b) a h = cc
ok_or_say-ok what none a h = cc

and_then-some :
    {A B : Type 0} (o : Option A) (f : A → Option B) (b : B)
    → and_then o f ≡ some b
    → (a : A) × (o ≡ some a) × (f a ≡ some b)
and_then-some none f b h = cc
and_then-some (some a) f b h = (a, refl, h)

same_components-eq : (a b : List Text) → same_components a b ≡ true → a ≡ b
same_components-eq [] [] h = refl
same_components-eq [] (d ∷ e) h = cc
same_components-eq (c ∷ b) [] h = cc
same_components-eq (c ∷ b) (d ∷ e) h = ground (arith, text_eq_iff c d, same_components-eq b e)

module _ {J : Type 0} (cargo : Cargo J) where
  same_file_path-eq :
      (a b : Text) → same_file_path cargo a b ≡ true → cargo.components a ≡ cargo.components b
  same_file_path-eq a b h = same_components-eq (cargo.components a) (cargo.components b) h

  -- A manifest in the directory `dir`, and the name of its package.
  pub record IsManifestIn (dir name : Text) (pkg : J) : Type 0 where
    pub manifest_path : Text
    pub pkg_dir : Text
    pub has_path : text_field cargo (text "manifest_path") pkg ≡ some manifest_path
    pub below : cargo.parent manifest_path ≡ some pkg_dir
    pub same : cargo.components pkg_dir ≡ cargo.components dir
    pub named : text_field cargo (text "name") pkg ≡ some name

  name_in-IsManifestIn :
      (dir name : Text) (pkg : J) → name_in cargo dir pkg ≡ some name → IsManifestIn dir name pkg
  name_in-IsManifestIn dir name pkg h =
      let (manifest_path, has_path, h1) =
        and_then-some (text_field cargo (text "manifest_path") pkg)
          (λ path. and_then (cargo.parent path) (λ pkg_dir.
            if same_file_path cargo pkg_dir dir then text_field cargo (text "name") pkg else none))
          name h in
      let (pkg_dir, below, h2) =
        and_then-some (cargo.parent manifest_path)
          (λ pkg_dir.
            if same_file_path cargo pkg_dir dir then text_field cargo (text "name") pkg else none)
          name h1 in
      checked manifest_path pkg_dir has_path below (Bool-cases (same_file_path cargo pkg_dir dir))
        h2
    where
      checked :
          (manifest_path pkg_dir : Text)
          → text_field cargo (text "manifest_path") pkg ≡ some manifest_path
          → cargo.parent manifest_path ≡ some pkg_dir
          → (same_file_path cargo pkg_dir dir ≡ true) ⊎ (same_file_path cargo pkg_dir dir ≡ false)
          → (if same_file_path cargo pkg_dir dir then text_field cargo (text "name") pkg else none)
            ≡ some name
          → IsManifestIn dir name pkg
      checked manifest_path pkg_dir has_path below (inl e) k = record {
        manifest_path = manifest_path;
        pkg_dir = pkg_dir;
        has_path = has_path;
        below = below;
        same = same_file_path-eq pkg_dir dir e;
        named = rw e at k;
      }
      checked manifest_path pkg_dir has_path below (inr e) k = absurd (nothing (rw e at k))
        where
          nothing : Path (Option Text) none (some name) → ⊥
          nothing q = cc

  -- The package that `get_project_info` names is the first of cargo's whose manifest is in the current
  -- directory.
  pub record IsProject (target_directory package_name dir : Text) : Type 0 where
    pub metadata : J
    pub packages : List J
    pub target : text_field cargo (text "target_directory") metadata ≡ some target_directory
    pub listed : and_then (cargo.get (text "packages") metadata) cargo.as_array ≡ some packages
    pub here : cargo.current_dir ≡ ok dir
    pub first : IsFirst (name_in cargo dir) packages package_name
    pub manifest : IsManifestIn dir package_name first.found

  assembled :
      (metadata : J) (packages : List J) (t n d : Text)
      → text_field cargo (text "target_directory") metadata ≡ some t
      → and_then (cargo.get (text "packages") metadata) cargo.as_array ≡ some packages
      → cargo.current_dir ≡ ok d
      → find_map (name_in cargo d) packages ≡ some n
      → IsProject t n d
  assembled metadata packages t n d target listed here found =
      let first = find_map-IsFirst (name_in cargo d) packages n found in
      record {
        metadata = metadata;
        packages = packages;
        target = target;
        listed = listed;
        here = here;
        first = first;
        manifest = name_in-IsManifestIn d n first.found first.value;
      }

  pub get_project_info-IsProject :
      (t n d : Text) → get_project_info cargo ≡ ok (t, n, d) → IsProject t n d
  unfolding get_project_info
  get_project_info-IsProject t n d h =
      let (output, h0, k0) = bind-ok (t, n, d) h in
      let (_, h1, k1) = bind-ok (t, n, d) k0 in
      let (metadata, h2, k2) = bind-ok (t, n, d) k1 in
      let (target, h3, k3) = bind-ok (t, n, d) k2 in
      let (packages, h4, k4) = bind-ok (t, n, d) k3 in
      let (dir, h5, k5) = bind-ok (t, n, d) k4 in
      let (name, h6, k6) = bind-ok (t, n, d) k5 in
      subst (λ q. IsProject q.0 q.1 q.2) (ok-injective (target, name, dir) (t, n, d) k6)
        (assembled metadata packages target name dir (ok_or_say-ok _ _ target h3)
          (ok_or_say-ok _ _ packages h4)
          (or_say-ok (text "Failed to get current directory: ") _ dir h5)
          (ok_or_say-ok _ _ name h6))

  -- A `run` that ends well built the package of the current directory: its sources are there, and the
  -- artifact is where `deploy` looks for it.
  pub record IsBuilt (path : Text) : Type 0 where
    pub project : Text × Text × Text
    pub known : IsProject project.0 project.1 project.2
    pub built : build_project cargo project.2 ≡ ok tt
    pub there : cargo.exists path ≡ true
    pub placed : path ≡ default_artifact_path project.0 project.1

  pub handle_run-IsBuilt : (path : Text) → handle_run cargo ≡ ok path → IsBuilt path
  unfolding handle_run
  handle_run-IsBuilt path h =
      let (project, h0, k0) = bind-ok path h in
      let (_, h1, k1) = bind-ok path k0 in
      let (there, placed) =
        guarded
          (text "Error: Could not find compiled WASIp3 component at: "
            ++ default_artifact_path project.0 project.1)
          (cargo.exists (default_artifact_path project.0 project.1)) refl k1 in
      record {
        project = project;
        known = get_project_info-IsProject project.0 project.1 project.2 h0;
        built = h1;
        there = subst (λ p. cargo.exists p ≡ true) (sym placed) there;
        placed = placed;
      }
    where
      guarded :
          {artifact : Text} (what : Text) (b : Bool)
          → cargo.exists artifact ≡ b
          → (if b then ok artifact else err what) ≡ ok path
          → (cargo.exists artifact ≡ true) × (path ≡ artifact)
      guarded {artifact = artifact} what true e k = (e, sym (ok-injective artifact path k))
      guarded what false e k = cc

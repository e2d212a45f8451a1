-- ===== src/Cli/Init.antt =====
-- A new project: `rewrite_package_name` of cli/src/init.rs.
use faasta.Prelude.{
  ℕ, Text, text, Bool, true, false, ◌&&◌, ◌==◌, List, [], ◌∷◌, ◌++◌, ◌≡◌, refl, sym, ap, ◌∙◌, All,
  append_assoc, split, starts_with, trim_start, if◌then◌else◌,
}

abbrev pub newline : ℕ
newline = b'\n'

-- A line ends before `\r\n` or `\n`.
abbrev pub without_return : Text → Text
without_return [] = []
without_return (c ∷ []) = if c == b'\r' then [] else c ∷ []
without_return (c ∷ d ∷ s) = c ∷ without_return (d ∷ s)

-- The text behind the last line feed is a line where it is not empty.
abbrev pub lines_of : List Text → List Text
lines_of [] = []
lines_of ([] ∷ []) = []
lines_of (s ∷ []) = s ∷ []
lines_of (s ∷ t ∷ parts) = without_return s ∷ lines_of (t ∷ parts)

abbrev pub lines : Text → List Text
lines s = lines_of (split newline s)

-- Each line with a line feed behind it.
abbrev pub unlines : List Text → Text
unlines [] = []
unlines (line ∷ rest) = line ++ newline ∷ unlines rest

abbrev pub is_package : Text → Bool
is_package line = starts_with (text "[package]") (trim_start line)

abbrev pub is_name : Text → Bool
is_name line = starts_with (text "name =") (trim_start line)

-- The loop; `in_package` is whether the name of a package is still to come.
unfoldable pub rewrite_lines : Text → Bool → List Text → Text
rewrite_lines package_name in_package [] = []
rewrite_lines package_name in_package (line ∷ rest) =
    let opened = rewrite_lines package_name true rest in
    let replaced = rewrite_lines package_name false rest in
    let kept = rewrite_lines package_name in_package rest in
    if is_package line
    then line ++ newline ∷ opened
    else if in_package && is_name line
    then text "name = \"" ++ (package_name ++ (b'"' ∷ newline ∷ replaced))
    else line ++ newline ∷ kept

unfoldable pub rewrite_package_name : Text → Text → Text
unfolding rewrite_lines
rewrite_package_name toml_input package_name = rewrite_lines package_name false (lines toml_input)

abbrev pub name_line : Text → Text
name_line package_name = text "name = \"" ++ (package_name ++ (b'"' ∷ []))

module _ (package_name : Text) where
  -- Lines with no package among them stay.
  rewrite_outside :
      (rest : List Text)
      → All (λ line. is_package line ≡ false) rest
      → rewrite_lines package_name false rest ≡ unlines rest
  unfolding rewrite_lines
  rewrite_outside [] h = refl
  rewrite_outside (line ∷ rest) (p, h) =
      rw p (ap (λ s. line ++ newline ∷ s) (rewrite_outside rest h))

  rewrite_inside :
      (mid rest : List Text) (old : Text)
      → All (λ line. (is_package line ≡ false) × (is_name line ≡ false)) mid
      → is_package old ≡ false
      → is_name old ≡ true
      → All (λ line. is_package line ≡ false) rest
      → rewrite_lines package_name true (mid ++ old ∷ rest)
        ≡ unlines (mid ++ name_line package_name ∷ rest)
  unfolding rewrite_lines
  rewrite_inside [] rest old h p n k =
      rw (p, n)
        (ap (λ s. text "name = \"" ++ (package_name ++ (b'"' ∷ newline ∷ s)))
            (rewrite_outside rest k)
          ∙ ap (λ s. text "name = \"" ++ s)
              (sym (append_assoc package_name (b'"' ∷ []) (newline ∷ unlines rest))))
  rewrite_inside (line ∷ mid) rest old ((p', n'), h) p n k =
      rw (p', n') (ap (λ s. line ++ newline ∷ s) (rewrite_inside mid rest old h p n k))

  -- The first name behind `[package]` is replaced and every other line stays, where one package only is
  -- in the text.
  pub rewrite_lines_lem :
      (before mid rest : List Text) (head old : Text)
      → All (λ line. is_package line ≡ false) before
      → is_package head ≡ true
      → All (λ line. (is_package line ≡ false) × (is_name line ≡ false)) mid
      → is_package old ≡ false
      → is_name old ≡ true
      → All (λ line. is_package line ≡ false) rest
      → rewrite_lines package_name false (before ++ head ∷ (mid ++ old ∷ rest))
        ≡ unlines (before ++ head ∷ (mid ++ name_line package_name ∷ rest))
  unfolding rewrite_lines
  rewrite_lines_lem [] mid rest head old b p' h p n k =
      rw p' (ap (λ s. head ++ newline ∷ s) (rewrite_inside mid rest old h p n k))
  rewrite_lines_lem (line ∷ before) mid rest head old (q, b) p' h p n k =
      rw q (ap (λ s. line ++ newline ∷ s) (rewrite_lines_lem before mid rest head old b p' h p n k))

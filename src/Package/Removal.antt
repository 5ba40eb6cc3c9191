-- ===== src/Package/Removal.antt =====
-- src/output.c: `create_image` removes its temporary files.
use qlvgm.Prelude.{
  ℕ, ◌≡◌, refl, Bool, Bool-cases, inl, inr, some, List, ◌∷◌, ◌++◌, take, Result, ok, err, ◌∙◌,
}
use qlvgm.Os.{mkdtemp_call, rmdir_call, unlink_call, History, Os}
use qlvgm.Vgm.Convert.{Converted}
use qlvgm.Qlz.Stream.{Stream}
use qlvgm.Assemble.{
  Paths, clean, temporary_too_long, lifted, temporary_template, source_name, binary_name, paths_in,
  paths_fit, temporary_paths,
}
use qlvgm.Package.{PackError, Job, build_image, cleaned, create_image}

-- The calls that were made, on a failure too.
abbrev pub history_of : Result (PackError × History) (ℕ × History) → History
history_of (ok (loaded_size, h)) = h
history_of (err (e, h)) = h

history_of-cleaned :
    (paths : Paths) (r : Result (PackError × History) (ℕ × History))
    → history_of (cleaned paths r) ≡ clean paths (history_of r)
unfolding cleaned
history_of-cleaned paths (ok (loaded_size, h)) = refl
history_of-cleaned paths (err (e, h)) = refl

-- The two files in a folder, and the folder.
abbrev pub removed : List ℕ → History → History
removed directory last =
    rmdir_call directory
    ∷ unlink_call (take 4095 (directory ++ binary_name))
    ∷ unlink_call (take 4095 (directory ++ source_name))
    ∷ last

clean_lem :
    (c : ℕ) (rest : List ℕ) (h : History) → clean (paths_in (c ∷ rest)) h ≡ removed (c ∷ rest) h
unfolding clean paths_in
clean_lem c rest h = refl

-- Wherever `create_image` fails, and when it succeeds: if `mkdtemp` makes a directory, the last three calls
-- remove the source, the binary and the directory, in this order.
pub create_image-removed :
    (os : Os) (grants : ℕ → Bool) (rounds : ℕ) (j : Job) (converted : Converted) (stream : Stream)
    (h : History) (n c : ℕ) (rest : List ℕ)
    → (os.answer (mkdtemp_call temporary_template ∷ h)).count ≡ some n
    → (os.answer (mkdtemp_call temporary_template ∷ h)).bytes ≡ c ∷ rest
    → (last : History) × (history_of (create_image os grants rounds j converted stream h)
        ≡ removed (c ∷ rest) last)
unfolding create_image temporary_paths lifted
create_image-removed os grants rounds j converted stream h n c rest went directory =
    let asked = mkdtemp_call temporary_template ∷ h in
    let paths = paths_in (c ∷ rest) in
    elim (Bool-cases (paths_fit (c ∷ rest))) [
      | inl fit ↦
          let made : temporary_paths os h ≡ ok (paths, asked) =
            rw (went, directory, fit, temporary_paths) refl in
          let built = build_image os grants rounds j converted stream paths asked in
          (
            history_of built,
            rw (made, create_image)
                (history_of-cleaned paths built ∙ clean_lem c rest (history_of built)),
          )
      | inr long ↦
          let failed : temporary_paths os h ≡ err (temporary_too_long, clean paths asked) =
            rw (went, directory, long, temporary_paths) refl in
          (asked, rw (failed, create_image) (clean_lem c rest asked))
    ]

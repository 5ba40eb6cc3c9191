-- ===== src/Assemble/Removed.antt =====
-- src/output.c: the temporary files are made and removed without any file being put in another's place.
use qlvgm.Prelude.{ℕ, Bool-cases, inl, inr, Option-cases, List, [], ◌∷◌}
use qlvgm.Os.{Call, mkdtemp_call, rmdir_call, unlink_call, History, Os}
use qlvgm.Os.Plain.{Plain, Plain-refl, Plain-trans, Plain-call, IsPlain, Plainly}
use qlvgm.Assemble.{
  Paths, clean, for_path, temporary_paths, temporary_template, paths_in, paths_fit,
}

module _ (os : Os) where
  for_path-Plain :
      (call : List ℕ → Call) (path : List ℕ) (h : History)
      → IsPlain (call path)
      → Plain os h (for_path call path h)
  for_path-Plain call [] h is = Plain-refl os h
  for_path-Plain call (c ∷ path) h is = Plain-call os (call (c ∷ path)) h is

  pub clean-Plain : (p : Paths) (h : History) → Plain os h (clean p h)
  unfolding clean
  clean-Plain p h =
      let first = for_path unlink_call p.source h in
      let second = for_path unlink_call p.binary first in
      Plain-trans (for_path-Plain unlink_call p.source h tt) (
        Plain-trans (for_path-Plain unlink_call p.binary first tt)
          (for_path-Plain rmdir_call p.directory second tt))

  pub temporary_paths-Plainly : (h : History) → Plainly os h (temporary_paths os h)
  unfolding temporary_paths
  temporary_paths-Plainly h =
      let asked = mkdtemp_call temporary_template ∷ h in
      let a = os.answer asked in
      let p = Plain-call os (mkdtemp_call temporary_template) h tt in
      elim (Option-cases a.count) [
        | inl failed ↦ rw (failed, temporary_paths) p
        | inr (n, went) ↦ elim (Bool-cases (paths_fit a.bytes)) [
          | inl fit ↦ rw (went, fit, temporary_paths) p
          | inr long ↦
              rw (went, long, temporary_paths)
                (Plain-trans p (clean-Plain (paths_in a.bytes) asked))
        ]
      ]

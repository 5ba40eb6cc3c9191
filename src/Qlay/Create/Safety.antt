-- ===== src/Qlay/Create/Safety.antt =====
-- src/qlay.c: what `qlay_write_image` does to the files of the system.
use qlvgm.Prelude.{
  or-eq-false, ℕ, ◌≤◌, ◌≡◌, ◌⊎◌, inl, inr, refl, arith, subst, sym, ◌∙◌, Bool, true, false, not,
  ◌||◌, ltb, ltb→le, ◌==◌, ==→ne, List, [], ◌∷◌, length, All, Result, ok, err, ◌>>=◌, >>=-eq-ok,
  Result-cases, ok-ne-err, checks4-eq-ok, if◌then◌else◌,
}
use qlvgm.Os.{lstat_call, fsync_call, close_call, rename_call, Os, History, succeeded}
use qlvgm.Os.History.{written, Kept}
use qlvgm.Os.Plain.{Plain}
use qlvgm.Qlay.Image.{CartridgeFile, image_fits}
use qlvgm.Qlay.Output.{
  Output, ImageError, cannot_write, never_ends, output_begin, output_checks, output_finish,
  with_output, create_temporary, make_call,
}
use qlvgm.Qlay.Output.Writes.{content}
use qlvgm.Qlay.Output.Begin.{Begun, output_begin-Begun, output_checks-eq-ok}
use qlvgm.Qlay.Output.Finish.{Done, Finished, output_finish-Finished}
use qlvgm.Qlay.Create.{bad_names, image_checks, write_image, render_image}
use qlvgm.Qlay.Create.Bytes.{image_bytes, render_image-Leaves}

-- How the creation of an image of `bytes` at `path` ends.
unfoldable pub Ended : Os → List ℕ → List ℕ → Result (ImageError × Output) Output → Type 0
Ended os path bytes (ok o) =
    (temporary : List ℕ) × (h : History) × (o.history
      ≡ rename_call temporary path ∷ close_call ∷ fsync_call ∷ h)
    × (written os h ≡ bytes)
    × Done os fsync_call h
    × Done os close_call (fsync_call ∷ h)
    × Done os (rename_call temporary path) (close_call ∷ fsync_call ∷ h)
    × Kept os h
Ended os path bytes (err (e, o)) = Kept os o.history

Ended-Finished :
    (os : Os) (path bytes : List ℕ) (o : Output) (r : Result (ImageError × Output) Output)
    → o.path ≡ path
    → Kept os o.history
    → Finished os o bytes r
    → Ended os path bytes r
unfolding Finished Ended Kept
Ended-Finished os path bytes o (ok o') same kept (h, last, all, synced, closed, renamed, still) = (
  o.temporary_path,
  h,
  subst (λ p. o'.history ≡ rename_call o.temporary_path p ∷ close_call ∷ fsync_call ∷ h) same last,
  all,
  synced,
  closed,
  subst (λ p. Done os (rename_call o.temporary_path p) (close_call ∷ fsync_call ∷ h)) same renamed,
  still kept,
)
Ended-Finished os path bytes o (err (cannot_write e, o')) same kept (h, last, still) =
    subst (Kept os) (sym last) (still kept)
Ended-Finished os path bytes o (err (never_ends, o')) same kept still = still kept
Ended-Finished os path bytes o (err (e, o')) same kept never = absurd never

create-Ended :
    (os : Os) (path bytes : List ℕ) (h : History) (r : Result (ImageError × Output) Output)
    (next : Output → Result (ImageError × Output) Output)
    → Kept os h
    → written os h ≡ []
    → Begun os path h r
    → ((o : Output) → content os o ≡ [] → Finished os o bytes (next o))
    → Ended os path bytes (r >>= next)
unfolding Begun Ended
create-Ended os path bytes h (ok o) next none before (same, empty, kept) rest =
    Ended-Finished os path bytes o (next o) same (kept none) (rest o (empty ∙ before))
create-Ended os path bytes h (err (e, o)) next none before (nothing, kept) rest = kept none

-- `qlay_write_image`, on any system and with any arguments, behind calls that wrote nothing and put
-- no file in the place of another. When it reports success, the last
-- calls were a successful fsync, close and rename of the temporary file to the path, in this order;
-- what was written to the file until then are the bytes of the image, all of them; and no other
-- file was put in the place of one before. When it reports a failure, no file was put in the place
-- of another.
pub write_image-Ended :
    (os : Os) (rounds : ℕ) (path : List ℕ) (force : Bool) (sectors random_id : ℕ)
    (medium_name : List ℕ) (files : List CartridgeFile) (h : History)
    → Plain os [] h
    → Ended os path
        (image_bytes sectors medium_name random_id files)
        (write_image os rounds path force sectors medium_name random_id files h)
unfolding write_image with_output
write_image-Ended os rounds path force sectors random_id medium_name files h plain =
    let none = plain.keeps (unfold Kept in tt) in
    let nothing : written os [] ≡ [] = unfold written in refl in
    let before : written os h ≡ [] = plain.writes ∙ nothing in
    let bytes = image_bytes sectors medium_name random_id files in
    let finish : Output → Result (ImageError × Output) Output =
      λ o. output_finish os rounds (render_image os rounds sectors medium_name random_id files o) in
    let unopened : Output = record {
      path = path;
      temporary_path = [];
      buffered = [];
      history = h;
    } in
    elim (image_checks sectors files)
      as (λ r.
        Ended os path bytes
          (with_output r unopened >>= λ u. output_begin os path force h >>= finish)) [
            | ok u ↦
                create-Ended os path bytes h (output_begin os path force h) finish none before
                  (output_begin-Begun os path force h)
                  (λ o empty.
                    output_finish-Finished os rounds o bytes _
                      (render_image-Leaves os rounds sectors random_id medium_name files o empty))
            | err e ↦ unfold Ended in none
          ]

if-eq-false : (a b : Bool) → (if a then true else b) ≡ false → (a ≡ false) × (b ≡ false)
if-eq-false true b h = cc
if-eq-false false b h = (refl, h)

not-eq-false : (a : Bool) → not a ≡ false → a ≡ true
not-eq-false true h = refl
not-eq-false false h = cc

with_output-eq-ok :
    (r : Result ImageError (Unit {0})) (o p : Output) → with_output r o ≡ ok p → r ≡ ok tt
unfolding with_output
with_output-eq-ok (ok u) o p e = refl
with_output-eq-ok (err x) o p e = absurd (ok-ne-err (sym e))

bad_names-false :
    (fs : List CartridgeFile)
    → bad_names fs ≡ false
    → All (λ f. (1 ≤ length f.name) × (length f.name ≤ 36)) fs
unfolding bad_names
bad_names-false [] e = tt
bad_names-false (f ∷ fs) e =
    let (good, rest) =
      if-eq-false (length f.name == 0 || ltb 36 (length f.name)) (bad_names fs) e in
    let (some_bytes, short) = or-eq-false (length f.name == 0) (ltb 36 (length f.name)) good in
    (
      (omega (arith, ==→ne (length f.name) 0 some_bytes), ltb→le 36 (length f.name) short),
      bad_names-false fs rest,
    )

-- What was asked for and found when an image is created at `path`.
pub Allowed :
    Os
    → List ℕ
    → Bool
    → ℕ
    → List CartridgeFile
    → History
    → Result (ImageError × Output) Output
    → Type 0
Allowed os path force sectors files h (ok o) =
    let existing = os.answer (lstat_call path ∷ h) in
    (200 ≤ sectors)
    × (sectors ≤ 255)
    × (1 ≤ length files)
    × (length files ≤ 3)
    × All (λ f. (1 ≤ length f.name) × (length f.name ≤ 36)) files
    × (image_fits sectors files ≡ true)
    × (length path ≤ 4084)
    × (((succeeded existing ≡ false) × (existing.errno ≡ os.enoent))
        ⊎ ((succeeded existing ≡ true) × (existing.regular ≡ true) × (force ≡ true)))
Allowed os path force sectors files h (err e) = Unit

write_image-eq-ok :
    (os : Os) (rounds : ℕ) (path : List ℕ) (force : Bool) (sectors random_id : ℕ)
    (medium_name : List ℕ) (files : List CartridgeFile) (h : History) (o : Output)
    → write_image os rounds path force sectors medium_name random_id files h ≡ ok o
    → Allowed os path force sectors files h (ok o)
unfolding write_image output_begin make_call image_checks Allowed
write_image-eq-ok os rounds path force sectors random_id medium_name files h o e =
    let unopened : Output = record {
      path = path;
      temporary_path = [];
      buffered = [];
      history = h;
    } in
    let asked = make_call (lstat_call path) unopened in
    let existing = os.answer (lstat_call path ∷ h) in
    let finish : Output → Result (ImageError × Output) Output =
      λ o. output_finish os rounds (render_image os rounds sectors medium_name random_id files o) in
    let checks = with_output (image_checks sectors files) unopened in
    let begun = output_begin os path force h in
    let continue : Output → Result (ImageError × Output) Output =
      λ o'. create_temporary os (succeeded existing) existing o' in
    let (u, passed, rest) = >>=-eq-ok checks (λ u. begun >>= finish) e in
    let (o1, started, finished) = >>=-eq-ok begun finish rest in
    let (o2, allowed, made) =
      >>=-eq-ok (with_output (output_checks os path force existing) asked) continue started in
    let (geometry, count, names, fits) =
      checks4-eq-ok (ltb sectors 200 || ltb 255 sectors) (length files == 0 || ltb 3 (length files))
        (bad_names files) (not (image_fits sectors files)) _ _ _ _
        (with_output-eq-ok (image_checks sectors files) unopened u passed) in
    let (enough, most) = or-eq-false (ltb sectors 200) (ltb 255 sectors) geometry in
    let (some_files, few) = or-eq-false (length files == 0) (ltb 3 (length files)) count in
    let (target, short) =
      output_checks-eq-ok os path force existing tt
        (with_output-eq-ok (output_checks os path force existing) asked o2 allowed) in
    (
      ltb→le sectors 200 enough,
      ltb→le 255 sectors most,
      omega (arith, ==→ne (length files) 0 some_files),
      ltb→le 3 (length files) few,
      bad_names-false files names,
      not-eq-false (image_fits sectors files) fits,
      short,
      target,
    )

-- `qlay_write_image` reports success only for 200 to 255 sectors, one to three files, names of 1 to
-- 36 bytes and files that fit, and only when the path, of 4084 bytes at most, named no file or it
-- named a regular file and replacing it was asked for.
pub write_image-Allowed :
    (os : Os) (rounds : ℕ) (path : List ℕ) (force : Bool) (sectors random_id : ℕ)
    (medium_name : List ℕ) (files : List CartridgeFile) (h : History)
    → Allowed os path force sectors files h
        (write_image os rounds path force sectors medium_name random_id files h)
write_image-Allowed os rounds path force sectors random_id medium_name files h =
    let created = write_image os rounds path force sectors medium_name random_id files h in
    elim (Result-cases created) [
      | inl (o, e) ↦
          subst (Allowed os path force sectors files h) (sym e)
            (write_image-eq-ok os rounds path force sectors random_id medium_name files h o e)
      | inr (x, e) ↦ subst (Allowed os path force sectors files h) (sym e) (unfold Allowed in tt)
    ]

-- ===== src/Assemble/Written.antt =====
-- src/output.c: the file that `write_player_source` leaves, and its calls.
use qlvgm.Prelude.{
  ℕ, zero, suc, ◌-◌, ◌≡◌, refl, ap, ◌∙◌, subst, Bool, true, false, not, Bool-cases, inl, inr, ◌==◌,
  ◌||◌, ==→eq,
}
use qlvgm.Prelude.{
  Option-cases, List, [], ◌∷◌, ◌++◌, All, take, drop, length, get_or, Result, ok, err, Result-cases,
  some,
}
use qlvgm.Os.{
  Call, create_call, fdopen_call, close_call, fflush_call, fclose_call, fputs_call, fprintf_call,
  fwrite_call, History, Os, Answer, succeeded,
}
use qlvgm.Os.History.{count-cases}
use qlvgm.Os.Plain.{Plain, Plain-refl, Plain-trans, Plain-call, IsPlain, Plainly}
use qlvgm.Runtime.{read_file}
use qlvgm.Runtime.Calls.{read_file-Plainly}
use qlvgm.Program.{player_source}
use qlvgm.Assemble.{
  SourceError, printed, print_all, row_calls, data_calls, line_calls, Numbers, source_calls,
  end_source, create_source, lifted, write_player_source,
}
use qlvgm.Assemble.Prints.{texts, texts-source_calls}

-- Calls made one after the other.
abbrev pub all_made : List Call → History → History
all_made [] h = h
all_made (c ∷ calls) h = all_made calls (c ∷ h)

-- A call that prints a text.
abbrev pub IsPrint : Call → Type 0
IsPrint (fprintf_call text) = Unit
IsPrint (fwrite_call text) = Unit
IsPrint (fputs_call text) = Unit
IsPrint c = ⊥

IsPrint-IsPlain : (c : Call) → IsPrint c → IsPlain c
IsPrint-IsPlain (fprintf_call text) is = tt
IsPrint-IsPlain (fwrite_call text) is = tt
IsPrint-IsPlain (fputs_call text) is = tt
IsPrint-IsPlain c is = absurd is

-- An answer that says that all was printed: `fprintf` printed something, `fwrite` as many bytes as the
-- text has, and `fputs` returned no EOF.
abbrev pub PrintedAll : Call → Answer → Type 0
PrintedAll (fprintf_call text) a = (n : ℕ) × (a.count ≡ some (suc n))
PrintedAll (fwrite_call text) a = a.count ≡ some (length text)
PrintedAll c a = (n : ℕ) × (a.count ≡ some n)

-- So for all of the calls.
abbrev pub AllPrinted : Os → List Call → History → Type 0
AllPrinted os [] h = Unit
AllPrinted os (c ∷ calls) h = PrintedAll c (os.answer (c ∷ h)) × AllPrinted os calls (c ∷ h)

All-append : (xs ys : List Call) → All IsPrint xs → All IsPrint ys → All IsPrint (xs ++ ys)
All-append [] ys a b = b
All-append (x ∷ xs) ys (first, a) b = (first, All-append xs ys a b)

row_calls-IsPrint : (bytes : List ℕ) → All IsPrint (row_calls bytes)
unfolding row_calls
row_calls-IsPrint [] = tt
row_calls-IsPrint (b ∷ []) = (tt, tt)
row_calls-IsPrint (b ∷ c ∷ rest) = (tt, (tt, row_calls-IsPrint (c ∷ rest)))

data_calls-IsPrint : (fuel : ℕ) (bytes : List ℕ) → All IsPrint (data_calls fuel bytes)
unfolding data_calls
data_calls-IsPrint zero bytes = tt
data_calls-IsPrint (suc fuel) [] = tt
data_calls-IsPrint (suc fuel) (b ∷ rest) = (
  tt,
  All-append (row_calls (take 16 (b ∷ rest))) _ (row_calls-IsPrint (take 16 (b ∷ rest)))
      (tt, data_calls-IsPrint fuel (drop 16 (b ∷ rest))),
)

line_calls-IsPrint : (player : List ℕ) → All IsPrint (line_calls player)
unfolding line_calls
line_calls-IsPrint player =
    elim (Bool-cases (length player == 0 || not (get_or player (length player - 1) 0 == 10))) [
      | inl more ↦ rw (more) (tt, tt)
      | inr ended ↦ rw (ended) tt
    ]

source_calls-IsPrint : (player : List ℕ) (n : Numbers) → All IsPrint (source_calls player n)
unfolding source_calls
source_calls-IsPrint player n = (
  tt,
  (
    tt,
    All-append (line_calls player ++ fputs_call _ ∷ data_calls (length n.compressed) n.compressed) _
        (All-append (line_calls player) _ (line_calls-IsPrint player)
          (tt, data_calls-IsPrint (length n.compressed) n.compressed))
        (tt, tt),
  ),
)

module _ (os : Os) where
  print_all-Plain :
      (calls : List Call) (h : History) → All IsPrint calls → Plain os h (print_all os calls h).1
  unfolding print_all
  print_all-Plain [] h a = Plain-refl os h
  print_all-Plain (c ∷ calls) h (first, a) =
      let plain = Plain-call os c h (IsPrint-IsPlain c first) in
      elim (Bool-cases (printed os c h)) [
        | inl went ↦ rw (went, print_all) (Plain-trans plain (print_all-Plain calls (c ∷ h) a))
        | inr failed ↦ rw (failed, print_all) plain
      ]

  printed-PrintedAll :
      (c : Call) (h : History)
      → IsPrint c
      → printed os c h ≡ true
      → PrintedAll c (os.answer (c ∷ h))
  unfolding printed
  printed-PrintedAll (fprintf_call text) h is went =
      elim (count-cases (os.answer (fprintf_call text ∷ h)).count) [
        | inl none ↦ absurd (cc (rw (none, printed) at went))
        | inr (inl nothing) ↦ absurd (cc (rw (nothing, printed) at went))
        | inr (inr more) ↦ more
      ]
  printed-PrintedAll (fwrite_call text) h is went =
      elim (Option-cases (os.answer (fwrite_call text ∷ h)).count) [
        | inl none ↦ absurd (cc (rw (none, printed) at went))
        | inr (n, some_n) ↦ some_n ∙ ap some (==→eq n (length text) (rw (some_n, printed) at went))
      ]
  printed-PrintedAll (fputs_call text) h is went =
      elim (Option-cases (os.answer (fputs_call text ∷ h)).count) [
        | inl none ↦ absurd (cc (rw (none, printed) at went))
        | inr some_n ↦ some_n
      ]
  printed-PrintedAll c h is went = absurd is

  print_all-AllPrinted :
      (calls : List Call) (h : History)
      → All IsPrint calls
      → (print_all os calls h).0 ≡ true
      → AllPrinted os calls h
  unfolding print_all
  print_all-AllPrinted [] h a done = tt
  print_all-AllPrinted (c ∷ calls) h (first, a) done = elim (Bool-cases (printed os c h)) [
    | inl went ↦ (
      printed-PrintedAll c h first went,
      print_all-AllPrinted calls (c ∷ h) a (rw (went, print_all) at done),
    )
    | inr failed ↦ absurd (cc (rw (failed, print_all) at done))
  ]

  print_all-made :
      (calls : List Call) (h : History)
      → (print_all os calls h).0 ≡ true
      → (print_all os calls h).1 ≡ all_made calls h
  unfolding print_all
  print_all-made [] h done = refl
  print_all-made (c ∷ calls) h done = elim (Bool-cases (printed os c h)) [
    | inl went ↦ rw (went, print_all) (print_all-made calls (c ∷ h) (rw (went, print_all) at done))
    | inr failed ↦ absurd (cc (rw (failed, print_all) at done))
  ]

  -- What the end leaves: a failure, or all the calls, with fflush and fclose behind them.
  Closed : History → Bool × History → Result (SourceError × History) (Unit {0} × History) → Type 0
  Closed h (done, last) (ok (u, later)) =
      (done ≡ true)
      × (later ≡ fclose_call ∷ fflush_call ∷ last)
      × (succeeded (os.answer (fflush_call ∷ last)) ≡ true)
      × (succeeded (os.answer (fclose_call ∷ fflush_call ∷ last)) ≡ true)
      × Plain os h later
  Closed h (done, last) (err (e, later)) = Plain os h later

  end_source-Closed :
      (h : History) (r : Bool × History) → Plain os h r.1 → Closed h r (end_source os r)
  unfolding end_source Closed
  end_source-Closed h (false, last) p = Plain-trans p (Plain-call os fclose_call last tt)
  end_source-Closed h (true, last) p =
      let flushed = fflush_call ∷ last in
      let closed = fclose_call ∷ flushed in
      let both =
        Plain-trans p (
          Plain-trans (Plain-call os fflush_call last tt) (Plain-call os fclose_call flushed tt)) in
      elim (Bool-cases (succeeded (os.answer flushed))) [
        | inr failed ↦ rw (failed, end_source) both
        | inl went ↦ elim (Bool-cases (succeeded (os.answer closed))) [
          | inr failed ↦ rw (went, failed, end_source) both
          | inl done ↦ rw (went, done, end_source) (refl, refl, went, done, both)
        ]
      ]

  -- The file of the source.
  Filed :
      List ℕ → List Call → History → Result (SourceError × History) (Unit {0} × History) → Type 0
  Filed path calls h (ok (u, later)) =
      let last = all_made calls (fdopen_call ∷ create_call path ∷ h) in
      (later ≡ fclose_call ∷ fflush_call ∷ last)
      × AllPrinted os calls (fdopen_call ∷ create_call path ∷ h)
      × (succeeded (os.answer (fflush_call ∷ last)) ≡ true)
      × (succeeded (os.answer (fclose_call ∷ fflush_call ∷ last)) ≡ true)
      × Plain os h later
  Filed path calls h (err (e, later)) = Plain os h later

  create_source-Filed :
      (path : List ℕ) (calls : List Call) (h : History)
      → All IsPrint calls
      → Filed path calls h (create_source os path calls h)
  unfolding create_source Filed Closed
  create_source-Filed path calls h a =
      let created = create_call path ∷ h in
      let opened = fdopen_call ∷ created in
      let p = Plain-call os (create_call path) h tt in
      let q = Plain-trans p (Plain-call os fdopen_call created tt) in
      elim (Option-cases (os.answer created).count) [
        | inl failed ↦ rw (failed, create_source) p
        | inr (fd, went) ↦ elim (Option-cases (os.answer opened).count) [
          | inl failed ↦
              rw (went, failed, create_source) (Plain-trans q (Plain-call os close_call opened tt))
          | inr (file, streamed) ↦
              rw (went, streamed, create_source)
                (closed (end_source os (print_all os calls opened)) (
                  end_source-Closed h (print_all os calls opened)
                    (Plain-trans q (print_all-Plain calls opened a))))
        ]
      ]
    where
      closed :
          (r : Result (SourceError × History) (Unit {0} × History))
          → Closed h (print_all os calls (fdopen_call ∷ create_call path ∷ h)) r
          → Filed path calls h r
      closed (ok (u, later)) (done, last, flushed, shut, plain) =
          let opened = fdopen_call ∷ create_call path ∷ h in
          let same = print_all-made calls opened done in
          (
            last ∙ ap (λ l. fclose_call ∷ fflush_call ∷ l) same,
            print_all-AllPrinted calls opened a done,
            subst (λ l. succeeded (os.answer (fflush_call ∷ l)) ≡ true) same flushed,
            subst (λ l. succeeded (os.answer (fclose_call ∷ fflush_call ∷ l)) ≡ true) same shut,
            plain,
          )
      closed (err (e, later)) c = c

-- The player that was read, and the calls that put its source into the file.
pub record Sourced (os : Os) (grants : ℕ → Bool) (rounds : ℕ) (path player_path : List ℕ)
    (n : Numbers) (h later : History) : Type 0 where
  pub player : List ℕ
  pub read : History
  pub calls : List Call
  pub player_read : read_file os grants rounds player_path h ≡ ok (player, read)
  pub last : History
  pub prints : All IsPrint calls
  pub last_made : last ≡ all_made calls (fdopen_call ∷ create_call path ∷ read)
  pub all_printed : AllPrinted os calls (fdopen_call ∷ create_call path ∷ read)
  pub flushed : succeeded (os.answer (fflush_call ∷ last)) ≡ true
  pub closed : succeeded (os.answer (fclose_call ∷ fflush_call ∷ last)) ≡ true
  pub made : later ≡ fclose_call ∷ fflush_call ∷ last
  pub spelled :
      texts calls ≡ player_source player n.rate n.raw_size n.loop_offset n.test_frames n.compressed

pub SourceWritten :
    Os
    → (ℕ → Bool)
    → ℕ
    → List ℕ
    → List ℕ
    → Numbers
    → History
    → Result (SourceError × History) (Unit {0} × History)
    → Type 0
SourceWritten os grants rounds path player_path n h (ok (u, later)) =
    Sourced os grants rounds path player_path n h later × Plain os h later
SourceWritten os grants rounds path player_path n h (err (e, later)) = Plain os h later

pub write_player_source-SourceWritten :
    (os : Os) (grants : ℕ → Bool) (rounds : ℕ) (path player_path : List ℕ) (n : Numbers)
    (h : History)
    → SourceWritten os grants rounds path player_path n h
        (write_player_source os grants rounds path player_path n h)
unfolding write_player_source lifted SourceWritten Filed
write_player_source-SourceWritten os grants rounds path player_path n h =
    let plain = read_file-Plainly os grants rounds player_path h in
    elim (Result-cases (read_file os grants rounds player_path h)) [
      | inr ((e, last), failed) ↦ rw (failed, SourceWritten) (subst (Plainly os h) failed plain)
      | inl ((player, read), went) ↦
          rw (went, write_player_source)
            (filed player read went (create_source os path (source_calls player n) read)
              (create_source-Filed os path (source_calls player n) read
                (source_calls-IsPrint player n))
              (subst (Plainly os h) went plain))
    ]
  where
    filed :
        (player : List ℕ) (read : History)
        → read_file os grants rounds player_path h ≡ ok (player, read)
        → (r : Result (SourceError × History) (Unit {0} × History))
        → Filed os path (source_calls player n) read r
        → Plain os h read
        → SourceWritten os grants rounds path player_path n h r
    filed player read went (ok (u, later)) (made, all_printed, flushed, closed, plain) first = (
      record {
        player = player;
        read = read;
        calls = source_calls player n;
        player_read = went;
        last = all_made (source_calls player n) (fdopen_call ∷ create_call path ∷ read);
        prints = source_calls-IsPrint player n;
        last_made = refl;
        all_printed = all_printed;
        flushed = flushed;
        closed = closed;
        made = made;
        spelled = texts-source_calls player n;
      },
      Plain-trans first plain,
    )
    filed player read went (err (e, later)) f first = Plain-trans first f

pub write_player_source-Plainly :
    (os : Os) (grants : ℕ → Bool) (rounds : ℕ) (path player_path : List ℕ) (n : Numbers)
    (h : History)
    → Plainly os h (write_player_source os grants rounds path player_path n h)
unfolding SourceWritten
write_player_source-Plainly os grants rounds path player_path n h =
    plainly (write_player_source os grants rounds path player_path n h)
      (write_player_source-SourceWritten os grants rounds path player_path n h)
  where
    plainly :
        (r : Result (SourceError × History) (Unit {0} × History))
        → SourceWritten os grants rounds path player_path n h r
        → Plainly os h r
    plainly (ok (u, later)) w = w.1
    plainly (err (e, later)) w = w

pub write_player_source-Sourced :
    (os : Os) (grants : ℕ → Bool) (rounds : ℕ) (path player_path : List ℕ) (n : Numbers)
    (h later : History) (u : Unit {0})
    → write_player_source os grants rounds path player_path n h ≡ ok (u, later)
    → Sourced os grants rounds path player_path n h later
unfolding SourceWritten
write_player_source-Sourced os grants rounds path player_path n h later u went =
    let w : SourceWritten os grants rounds path player_path n h (ok (u, later)) =
      subst (SourceWritten os grants rounds path player_path n h) went
        (write_player_source-SourceWritten os grants rounds path player_path n h) in
    w.0

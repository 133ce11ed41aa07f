-- ===== src/Tests/Store.antt =====
-- src/counter.c at a small input, over the file of the small disk.
use klunok.Prelude.{
  drop-drop, ℕ, zero, suc, ◌<◌, List, [], ◌∷◌, ◌++◌, false, Option, some, Text, codes, ◌≡◌, ◌≢◌,
  refl, sym, ap, ◌∙◌, subst, arith, ◌⊎◌, length, take, drop,
}
use klunok.Trace.{ok}
use klunok.System.{Errno, enoent, Answer, fails, gives}
use klunok.Counter.{read_counter, write_counter}
use klunok.Counter.Store.{IsFileStore}
use klunok.Counter.Kept.{read_counter-write_counter}
use klunok.Tests.{host, host-IsAmple}
use klunok.Tests.Disk.{Disk, disk, content, open_content}
use klunok.Tests.Queue.{empty_disk}

abbrev pub Holding : Text → Text → Disk → Type 0
Holding p t d = d.file ≡ some t

abbrev pub Writing : ℕ → Text → Text → Disk → Type 0
Writing fd p t d = d.file ≡ some t

abbrev pub Reading : ℕ → Text → Disk → Type 0
Reading fd t d = drop d.position (content d.file) ≡ t

abbrev pub number : Answer ℕ → ℕ
number (fails e) = 0
number (gives n) = n

abbrev bytes : Answer (List ℕ) → List ℕ
bytes (fails e) = []
bytes (gives u) = u

take-length : (u : Text) → take (length u) u ≡ u
take-length [] = refl
take-length (c ∷ u) = ap (λ (t : Text). c ∷ t) (take-length u)

drop-taken : (n : ℕ) (t : Text) → drop (length (take n t)) t ≡ drop n t
drop-taken zero t = refl
drop-taken (suc n) [] = refl
drop-taken (suc n) (c ∷ t) = drop-taken n t

take-drop : (n : ℕ) (t : Text) → t ≡ take n t ++ drop n t
take-drop zero t = refl
take-drop (suc n) [] = refl
take-drop (suc n) (c ∷ t) = ap (λ (u : Text). c ∷ u) (take-drop n t)

pub nil_of_take : (n : ℕ) (t : Text) → 0 < n → take n t ≡ [] → t ≡ []
nil_of_take zero t p e = absurd (omega (arith, p))
nil_of_take (suc n) [] p e = refl
nil_of_take (suc n) (c ∷ t) p e = absurd (ground (arith, e))

opened_at :
    (t : Text) (fd : ℕ) (f : Option Text) (d d' : Disk)
    → d.file ≡ some t
    → f ≡ some t
    → open_content f d ≡ (gives fd, d')
    → Reading fd t d'
opened_at t fd f d d' held same e =
    let opened = rw same at e in
    subst (λ (r : Answer ℕ × Disk). Reading fd t r.1) opened
      (ap (λ (g : Option Text). content g) held)

never_absent :
    (t : Text) (f : Option Text) (d d' : Disk) → f ≡ some t → open_content f d ≢ (fails enoent, d')
never_absent t f d d' same e =
    ground (arith, ap (λ (r : Answer ℕ × Disk). number r.0) (rw same at e), rw same at e)

module _ (fd n : ℕ) (s s' : Disk) where
  write_file :
      (t u : Text)
      → s.file ≡ some t
      → disk.write fd u s ≡ (gives n, s')
      → s'.file ≡ some (t ++ take n u)
  write_file t u w e =
      let size : length u ≡ n = ap (λ (r : Answer ℕ × Disk). number r.0) e in
      let file : s'.file ≡ some (content s.file ++ u) =
        ap (λ (r : Answer ℕ × Disk). r.1.file) (sym e) in
      let whole : take n u ≡ u = subst (λ (k : ℕ). take k u ≡ u) size (take-length u) in
      file ∙ rw (w, whole) refl

  write_size : (u : Text) → disk.write fd u s ≡ (gives n, s') → length u ≡ n
  write_size u e = ap (λ (r : Answer ℕ × Disk). number r.0) e

  module _ (t u : Text) (w : Reading fd t s) (e : disk.read fd n s ≡ (gives u, s')) where
    read_taken : take n t ≡ u
    read_taken =
        ap (λ (x : Text). take n x) (sym w) ∙ ap (λ (r : Answer (List ℕ) × Disk). bytes r.0) e

    read_left : (rest : Text) × (t ≡ u ++ rest) × Reading fd rest s'
    read_left =
        let file = content s.file in
        let left = drop s.position file in
        (
          drop n t,
          take-drop n t ∙ ap (λ (x : Text). x ++ drop n t) read_taken,
          subst (λ (r : Answer (List ℕ) × Disk). Reading fd (drop n t) r.1) e
              (drop-drop s.position (length (take n left)) file
                ∙ drop-taken n left
                ∙ ap (λ (x : Text). drop n x) w),
        )

pub disk-IsFileStore : IsFileStore disk Writing Reading Holding
disk-IsFileStore = record {
  truncated = λ p fd s s' s2 created cut. ap (λ (r : Option Errno × Disk). r.1.file) (sym cut);
  wrote = λ p t u fd n s s' w e. write_file fd n s s' t u w e;
  progress = λ u fd n s s' e some'.
      (omega (arith, some', write_size fd n s s' u e), omega (arith, write_size fd n s s' u e));
  closed = λ p t fd s w. w;
  opened = λ p t fd s s' w e. opened_at t fd s.file s s' w w e;
  present = λ p t s s' w e. never_absent t s.file s s' w e;
  came = λ t u fd n s s' w e. read_left fd n s s' t u w e;
  ended = λ t fd n s s' w p e. nil_of_take n t p (read_taken fd n s s' t [] w e);
}

read_counter-write_counter_example :
    ((read_counter disk (codes "o") (write_counter disk (codes "o") 1234 empty_disk host).0 host).0
      ≡ 1234)
    ⊎ (ok (write_counter disk (codes "o") 1234 empty_disk host).1 ≡ false)
    ⊎ (ok
          (read_counter disk
            (codes "o")
            (write_counter disk (codes "o") 1234 empty_disk host).0
            host).2
        ≡ false)
read_counter-write_counter_example =
    read_counter-write_counter disk Writing Reading Holding disk-IsFileStore host host-IsAmple
      (codes "o") 1234 empty_disk (omega arith) (omega arith)

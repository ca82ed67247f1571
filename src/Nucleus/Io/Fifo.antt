-- ===== src/Nucleus/Io/Fifo.antt =====
-- The operations of a device are done in the order in which they were submitted.
use mathlib.Core.List.{append_assoc, append-nil}
use mathlib.Core.Option.{some-injective}
use hvf.Base.{
  List-cases, inl, inr, ℕ, ◌+◌, ◌≡◌, refl, ap, sym, ◌∙◌, arith, Bool, true, false, List, [], ◌∷◌,
  ◌++◌, Option, none, some, ◌==◌, if◌then◌else◌, Bool-cases, Option-cases,
}
use hvf.Errno.{Errno, failed}
use hvf.Nucleus.Io.{
  Io, Interrupt, start_next, submit_io, queued, unsolicited, op_err, is_eagain, cpu_initiated_io,
  io_int_handler, with_op,
}

-- A submission, with what `start_sch` returns, or an interruption.
pub data Event : Type 0 where
  submitted : ℕ → Errno → Event
  interrupted : Interrupt → Event

unfoldable pub step : Event → Io → Option Io
step (submitted op err) s = some (submit_io op err s)
step (interrupted i) s = io_int_handler i s

-- The operations that are started or wait, in order.
abbrev pub current : Option ℕ → List ℕ
current none = []
current (some op) = op ∷ []

abbrev pub waiting : Io → List ℕ
waiting s = current s.q_cur ++ s.q_out

-- The operation that an event submits, and the one for which it sets `done`.
abbrev pub enters : Event → List ℕ
enters (submitted op err) = op ∷ []
enters (interrupted i) = []

unfoldable pub finishes : Event → Io → List ℕ
finishes (submitted op err) s = []
finishes (interrupted i) s = elim s.q_cur [
  | none ↦ []
  | some op ↦
      if (s.ops op).param == i.int_param
      then if is_eagain (op_err (s.ops op).handler i) then [] else op ∷ []
      else []
]

start_next-waiting : (err : Errno) (s : Io) → waiting (start_next err s) ≡ waiting s
unfolding start_next
start_next-waiting err s = elim (Option-cases s.q_cur) [
  | inr (op, e) ↦ ground (arith, e)
  | inl e ↦ elim (List-cases s.q_out) [
    | inl f ↦ ground (arith, e, f)
    | inr (op, rest, f) ↦ elim (Bool-cases (failed err)) [
      | inl g ↦ ground (arith, e, f, g)
      | inr g ↦ ground (arith, e, f, g)
    ]
  ]
]

-- An operation that is over, before the next is started.
abbrev over : ℕ → Errno → Io → Io
over op err s = record s { ops = with_op op (record (s.ops op) { err = err }) s.ops; q_cur = none }

cpu_initiated_io-waiting :
    (op : ℕ) (i : Interrupt) (s : Io)
    → s.q_cur ≡ some op
    → (if is_eagain (op_err (s.ops op).handler i) then [] else op ∷ [])
        ++ waiting (cpu_initiated_io op i s)
      ≡ waiting s
unfolding cpu_initiated_io
cpu_initiated_io-waiting op i s e = elim (Bool-cases (is_eagain (op_err (s.ops op).handler i))) [
  | inl again ↦ rw (cpu_initiated_io, again) refl
  | inr e' ↦
      rw (cpu_initiated_io, e')
        (ap (λ l. op ∷ l) (start_next-waiting i.started (over op (op_err (s.ops op).handler i) s))
          ∙ ap (λ c. current c ++ s.q_out) (sym e))
]

submit_io-waiting :
    (op : ℕ) (err : Errno) (s : Io) → waiting (submit_io op err s) ≡ waiting s ++ op ∷ []
unfolding submit_io
submit_io-waiting op err s =
    start_next-waiting err (queued op s) ∙ sym (append_assoc (current s.q_cur) s.q_out (op ∷ []))

unsolicited-waiting :
    (i : Interrupt) (s s' : Io) → unsolicited i s ≡ some s' → waiting s' ≡ waiting s
unfolding unsolicited
unsolicited-waiting i s s' h = elim (Bool-cases (failed i.tested)) [
  | inl f ↦ absurd (ground (arith, f))
  | inr f ↦ ap waiting (
      sym (some-injective (record s { attention = s.attention + 1 }) s' (rw (unsolicited, f) at h)))
]

-- What an interruption of the operation `op` finishes.
abbrev finished_by : ℕ → Interrupt → Io → List ℕ
finished_by op i s = if is_eagain (op_err (s.ops op).handler i) then [] else op ∷ []

finishes-current :
    (op : ℕ) (i : Interrupt) (s : Io)
    → s.q_cur ≡ some op
    → ((s.ops op).param == i.int_param) ≡ true
    → finishes (interrupted i) s ≡ finished_by op i s
unfolding finishes
finishes-current op i s e p = rw (finishes, e, p) refl

finishes-other :
    (op : ℕ) (i : Interrupt) (s : Io)
    → s.q_cur ≡ some op
    → ((s.ops op).param == i.int_param) ≡ false
    → finishes (interrupted i) s ≡ []
unfolding finishes
finishes-other op i s e p = rw (finishes, e, p) refl

interrupted-waiting :
    (i : Interrupt) (s s' : Io)
    → io_int_handler i s ≡ some s'
    → finishes (interrupted i) s ++ waiting s' ≡ waiting s
unfolding io_int_handler finishes
interrupted-waiting i s s' h = elim (Option-cases s.q_cur) [
  | inl e ↦ rw (finishes, e) (rw e at (unsolicited-waiting i s s' (rw (io_int_handler, e) at h)))
  | inr (op, e) ↦ elim (Bool-cases ((s.ops op).param == i.int_param)) [
    | inl p ↦
        let same : cpu_initiated_io op i s ≡ s' =
          some-injective (cpu_initiated_io op i s) s' (rw (io_int_handler, e, p) at h) in
        ap (λ l. l ++ waiting s') (finishes-current op i s e p)
        ∙ ap (λ r. finished_by op i s ++ waiting r) (sym same)
        ∙ cpu_initiated_io-waiting op i s e
    | inr p ↦
        ap (λ l. l ++ waiting s') (finishes-other op i s e p)
        ∙ unsolicited-waiting i s s' (rw (io_int_handler, e, p) at h)
  ]
]

step-waiting :
    (e : Event) (s s' : Io)
    → step e s ≡ some s'
    → finishes e s ++ waiting s' ≡ waiting s ++ enters e
unfolding step finishes
step-waiting (submitted op err) s s' h =
    let same : submit_io op err s ≡ s' = some-injective (submit_io op err s) s' h in
    ap waiting (sym same) ∙ submit_io-waiting op err s
step-waiting (interrupted i) s s' h = interrupted-waiting i s s' h ∙ sym (append-nil (waiting s))

abbrev pub among : ℕ → List ℕ → Bool
among p [] = false
among p (q ∷ qs) = if q == p then true else among p qs

start_next-done : (err : Errno) (s : Io) (p : ℕ) → ((start_next err s).ops p).done ≡ (s.ops p).done
unfolding start_next
start_next-done err s p = elim (Option-cases s.q_cur) [
  | inr (op, e) ↦ ground (arith, e)
  | inl e ↦ elim (List-cases s.q_out) [
    | inl f ↦ ground (arith, e, f)
    | inr (op, rest, f) ↦ elim (Bool-cases (failed err)) [
      | inl g ↦ ground (arith, e, f, g, ap (λ q. (s.ops q).done))
      | inr g ↦ ground (arith, e, f, g)
    ]
  ]
]

submit_io-done :
    (op : ℕ) (err : Errno) (s : Io) (p : ℕ)
    → ((submit_io op err s).ops p).done ≡ (if op == p then false else (s.ops p).done)
unfolding submit_io
submit_io-done op err s p = start_next-done err (queued op s) p ∙ ground arith

cpu_initiated_io-done :
    (op : ℕ) (i : Interrupt) (s : Io) (p : ℕ)
    → ((cpu_initiated_io op i s).ops p).done
      ≡ (if among p (finished_by op i s) then true else (s.ops p).done)
unfolding cpu_initiated_io
cpu_initiated_io-done op i s p = elim (Bool-cases (is_eagain (op_err (s.ops op).handler i))) [
  | inl again ↦ rw (cpu_initiated_io, again) (ground arith)
  | inr e ↦ ground (arith, e, start_next-done i.started (over op (op_err (s.ops op).handler i) s) p)
]

unsolicited-done :
    (i : Interrupt) (s s' : Io) (p : ℕ)
    → unsolicited i s ≡ some s'
    → (s'.ops p).done ≡ (s.ops p).done
unfolding unsolicited
unsolicited-done i s s' p h = elim (Bool-cases (failed i.tested)) [
  | inl f ↦ absurd (ground (arith, f))
  | inr f ↦
      ap (λ r. (r.ops p).done)
        (sym
          (some-injective (record s { attention = s.attention + 1 }) s' (rw (unsolicited, f) at h)))
]

-- An event that meets no BUG sets `done` of the operation that it finishes, if any, clears it for
-- the one that it submits, and leaves the others as they are: those for which `done` is set are the
-- finished ones.
pub step-done :
    (e : Event) (s s' : Io) (p : ℕ)
    → step e s ≡ some s'
    → (s'.ops p).done ≡ (
        if among p (finishes e s)
        then true
        else if among p (enters e)
        then false
        else (s.ops p).done)
unfolding step finishes io_int_handler
step-done (submitted op err) s s' p h =
    let same : submit_io op err s ≡ s' = some-injective (submit_io op err s) s' h in
    ap (λ r. (r.ops p).done) (sym same) ∙ submit_io-done op err s p ∙ ground arith
step-done (interrupted i) s s' p h = elim (Option-cases s.q_cur) [
  | inl e ↦ rw (finishes, e) (unsolicited-done i s s' p (rw (io_int_handler, e) at h))
  | inr (op, e) ↦ elim (Bool-cases ((s.ops op).param == i.int_param)) [
    | inl q ↦
        let same : cpu_initiated_io op i s ≡ s' =
          some-injective (cpu_initiated_io op i s) s' (rw (io_int_handler, e, q) at h) in
        rw (finishes-current op i s e q)
          (ap (λ r. (r.ops p).done) (sym same) ∙ cpu_initiated_io-done op i s p)
    | inr q ↦
        rw (finishes-other op i s e q) (unsolicited-done i s s' p (rw (io_int_handler, e, q) at h))
  ]
]

-- A sequence of events, the operations that it finishes, and those that it submits, in order.
unfoldable pub run : List Event → Io → Option Io
run [] s = some s
run (e ∷ es) s = elim (step e s) [ none ↦ none | some s' ↦ run es s' ]

unfoldable pub finished : List Event → Io → List ℕ
finished [] s = []
finished (e ∷ es) s = elim (step e s) [ none ↦ [] | some s' ↦ finishes e s ++ finished es s' ]

unfoldable pub entered : List Event → List ℕ
entered [] = []
entered (e ∷ es) = enters e ++ entered es

-- Over any events that meet no BUG the operations that are finished, then the one that is started,
-- then those that wait, are in order those that were started or waited before, then those that were
-- submitted: none is lost, repeated or overtaken, whether or not `start_sch` and `test_sch` fail.
pub io_in_order :
    (es : List Event) (s s' : Io)
    → run es s ≡ some s'
    → finished es s ++ waiting s' ≡ waiting s ++ entered es
unfolding run finished entered
io_in_order [] s s' h = ap waiting (sym (some-injective s s' h)) ∙ sym (append-nil (waiting s))
io_in_order (e ∷ es) s s' h = elim (Option-cases (step e s)) [
  | inl f ↦ absurd (ground (arith, f))
  | inr (s1, f) ↦
      let rest = io_in_order es s1 s' (rw (run, f) at h) in
      rw (finished, f)
        (append_assoc (finishes e s) (finished es s1) (waiting s')
          ∙ ap (λ l. finishes e s ++ l) rest
          ∙ sym (append_assoc (finishes e s) (waiting s1) (entered es))
          ∙ ap (λ l. l ++ entered es) (step-waiting e s s1 f)
          ∙ append_assoc (waiting s) (enters e) (entered es))
]

-- ===== src/BufferPool/Recovery.antt =====
-- A run of allocations and disposals, and the replay of its log on the header from before it.
use ob_preliminary.Common.{
  ℕ, ◌+◌, ◌<◌, ◌≡◌, ◌≢◌, refl, sym, ap, subst, ◌∙◌, inl, inr, Bool, true, false, false≢true, Option,
  none, some, List, [], ◌∷◌, ◌++◌, append-nil, append_assoc, if◌then◌else◌, arith, Bool-cases,
}
use ob_preliminary.Common.Int.{ℤ, ◌<ℤ◌, ◌≤ℤ◌}
use ob_preliminary.Common.Rc.{Rc, ob_succ}
use ob_preliminary.BufferPool.{
  BufferPoolLogEntry, DiskBufferPool, FrameOps, allocate_page, release, dispose_page,
  redo_allocate_page, redo_deallocate_page, replay, allocate, deallocate,
}
use ob_preliminary.BufferPool.Inv.{allocated, HasRoom, Takes}
use ob_preliminary.BufferPool.Allocate.{
  Allocated, allocate_page_lem, reused, extended, no_frame, full, Disposed, release-none,
  dispose_page_lem, header_page, in_use, given_back,
}
use ob_preliminary.BufferPool.Redo.{
  SamePages, SamePages-HasRoom, Takes-SamePages, Gives-SamePages, redo_reuse, redo_extend,
  redo_release,
}

-- A call that changes the allocation, with the number that its log entry gets.
pub data PoolCall : Type 0 where
  allocate_call : ℤ → PoolCall
  dispose_call : ℕ → ℤ → PoolCall

abbrev pub call_lsn : PoolCall → ℤ
call_lsn (allocate_call lsn) = lsn
call_lsn (dispose_call i lsn) = lsn

-- The replay of the entries in turn, until one fails.
unfoldable pub replay_entries {ℓ} :
    {S : Type ℓ} → DiskBufferPool S → List BufferPoolLogEntry → DiskBufferPool S × Rc
unfolding replay
replay_entries r [] = (r, Rc.success)
replay_entries r (e ∷ es) =
    let (q, rc) = replay r e in
    let rest = replay_entries q es in if ob_succ rc then rest else (q, rc)

replay_then {ℓ} :
    {S : Type ℓ} (r : DiskBufferPool S) (es ds : List BufferPoolLogEntry)
    → (replay_entries r es).1 ≡ Rc.success
    → replay_entries r (es ++ ds) ≡ replay_entries (replay_entries r es).0 ds
unfolding replay_entries
replay_then r [] ds w = refl
replay_then r (e ∷ es) ds w =
    let (q, rc) = replay r e in
    let rest = replay_entries q es in
    elim (Bool-cases (ob_succ rc)) [
      | inl t ↦ rw t (replay_then q es ds (sym (ap (λ b. (if b then rest else (q, rc)).1) t) ∙ w))
      | inr f ↦
          let stopped : rc ≡ Rc.success = sym (ap (λ b. (if b then rest else (q, rc)).1) f) ∙ w in
          absurd (false≢true (sym f ∙ ap ob_succ stopped))
    ]

-- A result that is there.
abbrev pub comes {ℓ} : {A : Type ℓ} → Option A → Bool
comes none = false
comes (some a) = true

module _ {ℓ} {S : Type ℓ} (ops : FrameOps S) where
  -- The pool after a call; a disposal that stops at an ASSERT changes nothing here.
  unfoldable pub after_call : DiskBufferPool S → PoolCall → DiskBufferPool S
  unfolding allocate_page dispose_page
  after_call p (allocate_call lsn) = (allocate_page ops p (some lsn)).0
  after_call p (dispose_call i lsn) = elim (dispose_page ops p i (some lsn)) [
    | none ↦ p
    | some (q, rc) ↦ q
  ]

  unfoldable pub after_calls : DiskBufferPool S → List PoolCall → DiskBufferPool S
  unfolding after_call
  after_calls p [] = p
  after_calls p (c ∷ cs) = after_calls (after_call p c) cs

  -- What a client keeps to: the numbers grow, the file has room, and a page that is disposed of is an allocated one, not
  -- the header, whose frame can be freed.
  abbrev pub IsLegal : DiskBufferPool S → PoolCall → Type 0
  IsLegal p (allocate_call lsn) = (p.hdr_lsn <ℤ lsn) × HasRoom p.file_header
  IsLegal p (dispose_call i lsn) =
      (p.hdr_lsn <ℤ lsn)
      × (0 < i)
      × (i < p.file_header.page_count)
      × (allocated p.file_header i ≡ true)
      × (comes (release ops p.frames i) ≡ true)

  abbrev pub AreLegal : DiskBufferPool S → List PoolCall → Type 0
  AreLegal p [] = Unit {0}
  AreLegal p (c ∷ cs) = IsLegal p c × AreLegal (after_call p c) cs

  -- The pool in memory and a header that is being recovered agree.
  pub record Agrees {κ} {T : Type κ} (r : DiskBufferPool T) (p : DiskBufferPool S) : Type 0 where
    pub same : SamePages r.file_header p.file_header
    pub behind : r.hdr_lsn ≤ℤ p.hdr_lsn

  -- What is logged between two states, and what its replay gives.
  pub record Replays {κ} {T : Type κ} (r : DiskBufferPool T) (p q : DiskBufferPool S) : Type 0 where
    pub entries : List BufferPoolLogEntry
    pub logged : q.log ≡ p.log ++ entries
    pub works : (replay_entries r entries).1 ≡ Rc.success
    pub agrees : Agrees (replay_entries r entries).0 q

  module _ {κ} {T : Type κ}
      (frames_come : (s : S) (n : ℕ) → (ops.allocate_frame s n).2 ≢ none) where
    one_entry :
        (r : DiskBufferPool T) (p q : DiskBufferPool S) (e : BufferPoolLogEntry)
        → q.log ≡ p.log ++ e ∷ []
        → (replay r e).1 ≡ Rc.success
        → Agrees (replay r e).0 q
        → Replays r p q
    unfolding replay_entries
    one_entry r p q e l w a = record { entries = e ∷ []; logged = l; works = rw w; agrees = rw w a }

    behind-Agrees :
        (r : DiskBufferPool T) (q : DiskBufferPool S) (lsn : ℤ)
        → SamePages r.file_header q.file_header
        → r.hdr_lsn ≤ℤ lsn
        → q.hdr_lsn ≡ lsn
        → Agrees r q
    behind-Agrees r q lsn s b e = record {
      same = s;
      behind = subst (λ n. r.hdr_lsn ≤ℤ n) (sym e) b;
    }

    nothing_logged :
        (r : DiskBufferPool T) (p q : DiskBufferPool S) → Agrees r p → q ≡ p → Replays r p q
    unfolding replay_entries
    nothing_logged r p q a e = record {
      entries = [];
      logged = ap (λ (t : DiskBufferPool S). t.log) e ∙ sym (append-nil p.log);
      works = refl;
      agrees = subst (Agrees r) (sym e) a;
    }

    allocate-Replays :
        (r : DiskBufferPool T) (p q : DiskBufferPool S) (lsn : ℤ) (rc : Rc) (frame : Option ℕ)
        → Agrees r p
        → p.hdr_lsn <ℤ lsn
        → HasRoom p.file_header
        → Allocated ops p (some lsn) q rc frame
        → Replays r p q
    unfolding replay
    allocate-Replays r p q lsn rc frame a new room (reused i f t g e) =
        let later : r.hdr_lsn <ℤ lsn = omega (arith, a.behind) in
        let inside : i < r.file_header.page_count = omega (arith, a.same.pages, f.1) in
        let q' = (redo_allocate_page r lsn i).0 in
        let (u, before, done) =
          redo_reuse r a.same.left lsn later i inside (a.same.marks i ∙ f.2) in
        let taken = subst (λ n. Takes r.file_header q'.file_header i n) a.same.pages u in
        one_entry r p q (record { lsn = lsn; operation = allocate; page_num = i }) g.entries done
          (behind-Agrees q' q lsn
            (Takes-SamePages r.file_header q'.file_header p.file_header q.file_header i
              p.file_header.page_count a.same taken t)
            before g.lsn)
    allocate-Replays r p q lsn rc frame a new room (extended x all l e t g o s) =
        let n = p.file_header.page_count in
        let later : r.hdr_lsn <ℤ lsn = omega (arith, a.behind) in
        let q' = (redo_allocate_page r lsn n).0 in
        let redone =
          redo_extend r a.same.left lsn later (omega (arith, a.same.pages, l))
            (SamePages-HasRoom r.file_header p.file_header a.same room) in
        let (u, before, done) =
          subst
            (λ k.
              Takes r.file_header (redo_allocate_page r lsn k).0.file_header k (k + 1)
              × ((redo_allocate_page r lsn k).0.hdr_lsn ≤ℤ lsn)
              × ((redo_allocate_page r lsn k).1 ≡ Rc.success))
            a.same.pages redone in
        one_entry r p q (record { lsn = lsn; operation = allocate; page_num = n }) g.entries done
          (behind-Agrees q' q lsn
            (Takes-SamePages r.file_header q'.file_header p.file_header q.file_header n (n + 1)
              a.same u t)
            before g.lsn)
    allocate-Replays r p q lsn rc frame a new room (no_frame all e h s) = absurd (frames_come _ _ e)
    allocate-Replays r p q lsn rc frame a new room (full all l e o s) = nothing_logged r p q a e

    dispose-Replays :
        (r : DiskBufferPool T) (p : DiskBufferPool S) (i : ℕ) (lsn : ℤ)
        → Agrees r p
        → IsLegal p (dispose_call i lsn)
        → {d : Option (DiskBufferPool S × Rc)} → dispose_page ops p i (some lsn) ≡ d
        → Disposed ops p i (some lsn) d
        → Replays r p (elim d [ none ↦ p | some (q, rc) ↦ q ])
    unfolding replay
    dispose-Replays r p i lsn a h same (header_page z e) = absurd (omega (arith, z, h.1))
    dispose-Replays r p i lsn a h same (in_use above frame g f e) =
        absurd (false≢true (ap comes (sym (release-none ops p.frames i frame g f)) ∙ h.4))
    dispose-Replays r p i lsn a h same (given_back q above e f gives g) =
        let later : r.hdr_lsn <ℤ lsn = omega (arith, a.behind, h.0) in
        let inside : i < r.file_header.page_count = omega (arith, a.same.pages, h.2) in
        let q' = (redo_deallocate_page r lsn i).0 in
        let (u, before, done) =
          redo_release r a.same.left lsn later i above inside (a.same.marks i ∙ h.3) in
        rw e (
          one_entry r p q (record { lsn = lsn; operation = deallocate; page_num = i }) g.entries
            done
            (behind-Agrees q' q lsn
              (Gives-SamePages r.file_header q'.file_header p.file_header q.file_header i a.same u
                gives)
              before g.lsn))

    call-Replays :
        (r : DiskBufferPool T) (p : DiskBufferPool S) (c : PoolCall)
        → Agrees r p
        → IsLegal p c
        → Replays r p (after_call p c)
    unfolding after_call
    call-Replays r p (allocate_call lsn) a h =
        let (q, rc, frame) = allocate_page ops p (some lsn) in
        allocate-Replays r p q lsn rc frame a h.0 h.1
          (allocate_page_lem ops p (some lsn) a.same.right h.1)
    call-Replays r p (dispose_call i lsn) a h =
        dispose-Replays r p i lsn a h refl
          (dispose_page_lem ops p i (some lsn) a.same.right h.2 h.3)

    -- Legal calls on a pool in memory whose header agrees with one on disk, with log numbers that grow, are logged so that
    -- the replay of what they logged, on the header on disk, succeeds with every entry and gives a well-formed header with the
    -- same pages allocated as in memory.
    pub redo_lem :
        (r : DiskBufferPool T) (p : DiskBufferPool S) (cs : List PoolCall)
        → Agrees r p
        → AreLegal p cs
        → Replays r p (after_calls p cs)
    unfolding after_calls
    redo_lem r p [] a h = nothing_logged r p p a refl
    redo_lem r p (c ∷ cs) a h =
        let one = call-Replays r p c a h.0 in
        let rest = redo_lem (replay_entries r one.entries).0 (after_call p c) cs one.agrees h.1 in
        let joined = replay_then r one.entries rest.entries one.works in
        record {
          entries = one.entries ++ rest.entries;
          logged =
              rest.logged
              ∙ ap (λ t. t ++ rest.entries) one.logged
              ∙ append_assoc p.log one.entries rest.entries;
          works = ap (λ (t : DiskBufferPool T × Rc). t.1) joined ∙ rest.works;
          agrees =
              subst (λ (t : DiskBufferPool T × Rc). Agrees t.0 (after_calls p (c ∷ cs)))
                (sym joined) rest.agrees;
        }

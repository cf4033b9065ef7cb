-- ===== src/Clog/Append.antt =====
-- A sequence of appends: entries with consecutive numbers.
use ob_preliminary.Common.{
  ℕ, ◌+◌, ◌*◌, ◌^◌, ◌≤◌, ◌<◌, ◌≡◌, refl, sym, ap, ap₂, ◌∙◌, Bool, true, false, Option, none, some,
  List, [], ◌∷◌, ◌++◌, append_assoc, append-nil, if◌then◌else◌, length, arith,
}
use ob_preliminary.Common.Int.{ℤ, pos, ◌+ℤ◌, ltb_ℤ, leb_ℤ}
use ob_preliminary.Common.Rc.{Rc, ob_succ}
use ob_preliminary.Common.System.{Call, returns, waits, stops}
use ob_preliminary.Clog.{
  LogEntry, LogEntryBuffer, max_payload_size, int32_of, init, moved_from, total_size, append,
}
use ob_preliminary.Clog.Reading.{IsEntry, AllEntries}

-- The entry number `n` of a module.
abbrev pub entry_at : ℕ → ℕ → List ℕ → LogEntry
entry_at n m payload = record {
  header = record { lsn = pos n; size = pos (length payload); module_id = pos m };
  data_bytes = payload;
}

-- The entries after number `n`.
unfoldable pub numbered : ℕ → ℕ → List (List ℕ) → List LogEntry
numbered n m [] = []
numbered n m (p ∷ ps) = entry_at (n + 1) m p ∷ numbered (n + 1) m ps

-- Payloads that are not empty and not too large.
abbrev pub AllPayloads : List (List ℕ) → Type 0
AllPayloads [] = Unit {0}
AllPayloads (p ∷ ps) = (0 < length p) × (length p ≤ max_payload_size) × AllPayloads ps

pub entry_at-IsEntry :
    (n m : ℕ) (p : List ℕ)
    → n < 2 ^ 63
    → m < 2 ^ 31
    → length p ≤ max_payload_size
    → IsEntry (entry_at n m p)
entry_at-IsEntry n m p hn hm hp = record {
  header_ok = record {
    number = n;
    payload = length p;
    module_number = m;
    lsn_is = refl;
    size_is = refl;
    module_is = refl;
    lsn_fits = hn;
    size_fits = omega arith;
    module_fits = hm;
  };
  size_ok = refl;
  small = hp;
}

pub numbered-AllEntries :
    (n m : ℕ) (ps : List (List ℕ))
    → n + length ps < 2 ^ 63
    → m < 2 ^ 31
    → AllPayloads ps
    → AllEntries (numbered n m ps)
unfolding numbered
numbered-AllEntries n m [] hn hm h = tt
numbered-AllEntries n m (p ∷ ps) hn hm h = (
  entry_at-IsEntry (n + 1) m p (omega arith) hm h.1,
  numbered-AllEntries (n + 1) m ps (omega arith) hm h.2,
)

-- Appends in a row; a refused one ends it.
unfoldable pub append_all : LogEntryBuffer → ℕ → List (List ℕ) → Call (Rc × LogEntryBuffer)
append_all b m [] = returns (Rc.success, b)
append_all b m (p ∷ ps) = elim (append b (pos m) p) [
  | waits ↦ waits
  | stops ↦ stops
  | returns (rc, lsn, b') ↦ elim (ob_succ rc) [
    | true ↦ append_all b' m ps
    | false ↦ returns (rc, b')
  ]
]

-- The buffer after entries with the payloads `ps` came in: sixteen bytes are counted for each.
abbrev pub appended : LogEntryBuffer → ℕ → ℕ → ℕ → List (List ℕ) → LogEntryBuffer
appended b n counted m ps = record b {
  entries = b.entries ++ numbered n m ps;
  bytes = pos (counted + 16 * length ps);
  current_lsn = pos (n + length ps);
}

pub add_pos : (x y : ℕ) → pos x +ℤ pos y ≡ pos (x + y)
add_pos x y = ground arith

-- The entry before its number is set.
abbrev unnumbered : ℕ → List ℕ → LogEntry
unnumbered m p = record {
  header = record { lsn = pos 0; size = pos (length p); module_id = pos m };
  data_bytes = p;
}

init_lem :
    (m : ℕ) (p : List ℕ)
    → length p ≤ max_payload_size
    → init (pos 0) (pos m) p ≡ some (unnumbered m p)
unfolding init
init_lem m p h =
    let size : int32_of (length p) ≡ pos (length p) = ground arith in
    let small : ltb_ℤ (pos max_payload_size) (pos (length p)) ≡ false = ground arith in
    ap
      (λ z.
        if ltb_ℤ (pos max_payload_size) z
        then none
        else some (record {
          header = record { lsn = pos 0; size = z; module_id = pos m };
          data_bytes = p;
        }))
      size
    ∙ ap (λ (b : Bool). if b then none else some (unnumbered m p)) small

-- An append that does not wait: the entry comes last, with the next number.
append_one :
    (b : LogEntryBuffer) (n counted m : ℕ) (p : List ℕ)
    → b.current_lsn ≡ pos n
    → b.bytes ≡ pos counted
    → leb_ℤ b.max_bytes b.bytes ≡ false
    → length p ≤ max_payload_size
    → append b (pos m) p
      ≡ returns (
        Rc.success,
        some (pos (n + 1)),
        record b {
          entries = b.entries ++ entry_at (n + 1) m p ∷ [];
          bytes = pos (counted + 16);
          current_lsn = pos (n + 1);
        },
      )
unfolding append moved_from
append_one b n counted m p hn hb room hp =
    let next : b.current_lsn +ℤ pos 1 ≡ pos (n + 1) = ap (λ x. x +ℤ pos 1) hn ∙ add_pos n 1 in
    let more : b.bytes +ℤ pos 16 ≡ pos (counted + 16) =
      ap (λ x. x +ℤ pos 16) hb ∙ add_pos counted 16 in
    ap (λ (w : Bool). if w then waits else push (init (pos 0) (pos m) p)) room
    ∙ ap push (init_lem m p hp)
    ∙ ap₂ done next more
  where
    done : ℤ → ℤ → Call (Rc × Option ℤ × LogEntryBuffer)
    done lsn counted' = returns (
      Rc.success,
      some lsn,
      record b {
        entries =
            b.entries
            ++ record {
              header = record { lsn = lsn; size = pos (length p); module_id = pos m };
              data_bytes = p;
            }
              ∷ [];
        bytes = counted';
        current_lsn = lsn;
      },
    )

    push : Option LogEntry → Call (Rc × Option ℤ × LogEntryBuffer)
    push none = returns (Rc.invalid_argument, none, b)
    push (some e) =
        let lsn = b.current_lsn +ℤ pos 1 in
        let entry = record e { header = record (e.header) { lsn = lsn } } in
        returns (
          Rc.success,
          some lsn,
          record b {
            entries = b.entries ++ entry ∷ [];
            bytes = b.bytes +ℤ total_size (moved_from entry);
            current_lsn = lsn;
          },
        )

-- While the counted bytes stay below the limit no append waits: the entries get consecutive numbers and stand in
-- the buffer in order, and for each of them sixteen bytes are counted, the size of a header.
pub append_all_lem :
    (ps : List (List ℕ)) (b : LogEntryBuffer) (n counted m limit : ℕ)
    → b.current_lsn ≡ pos n
    → b.bytes ≡ pos counted
    → b.max_bytes ≡ pos limit
    → AllPayloads ps
    → counted + 16 * length ps < limit
    → append_all b m ps ≡ returns (Rc.success, appended b n counted m ps)
unfolding append_all numbered
append_all_lem [] b n counted m limit hn hb hl h room =
    let same_lsn : b.current_lsn ≡ pos (n + 0) = hn ∙ ap pos (omega arith) in
    let same_bytes : b.bytes ≡ pos (counted + 16 * 0) = hb ∙ ap pos (omega arith) in
    ap (λ x. returns (Rc.success, x))
      (λ i. record b {
        entries = sym (append-nil b.entries) i;
        bytes = same_bytes i;
        current_lsn = same_lsn i;
      })
append_all_lem (p ∷ ps) b n counted m limit hn hb hl h room =
    let b1 : LogEntryBuffer = record b {
      entries = b.entries ++ entry_at (n + 1) m p ∷ [];
      bytes = pos (counted + 16);
      current_lsn = pos (n + 1);
    } in
    let free : leb_ℤ b.max_bytes b.bytes ≡ false = rw (hl, hb) (ground arith) in
    let lsns : pos (n + 1 + length ps) ≡ pos (n + length (p ∷ ps)) = ap pos (omega arith) in
    let sizes : pos (counted + 16 + 16 * length ps) ≡ pos (counted + 16 * length (p ∷ ps)) =
      ap pos (omega arith) in
    ap then_rest (append_one b n counted m p hn hb free h.1)
    ∙ append_all_lem ps b1 (n + 1) (counted + 16) m limit refl refl hl h.2 (omega arith)
    ∙ ap (λ x. returns (Rc.success, x))
        (λ i. record b {
          entries = append_assoc b.entries (entry_at (n + 1) m p ∷ []) (numbered (n + 1) m ps) i;
          bytes = sizes i;
          current_lsn = lsns i;
        })
  where
    then_rest : Call (Rc × Option ℤ × LogEntryBuffer) → Call (Rc × LogEntryBuffer)
    then_rest waits = waits
    then_rest stops = stops
    then_rest (returns (rc, lsn, b')) = elim (ob_succ rc) as (λ x. Call (Rc × LogEntryBuffer)) [
      | true ↦ append_all b' m ps
      | false ↦ returns (rc, b')
    ]

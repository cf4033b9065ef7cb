-- ===== src/Frames/Tests.antt =====
-- A pool of one or two frames, and calls of it.
use ob_preliminary.Common.{
  ℕ, ◌+◌, ◌≡◌, refl, subst, inl, inr, true, false, Option, none, some, List, [], ◌∷◌, length, max,
}
use mathlib.Core.List.{reverse}
use ob_preliminary.Common.Int.{pos, negsuc}
use ob_preliminary.Common.Rc.{Rc}
use ob_preliminary.LruCache.Spec.{lookup, without, used, looked_up}
use ob_preliminary.Common.System.{Call, returns, waits, stops}
use ob_preliminary.Frames.{
  FrameId, equal_to, Frame, BpFrameManager, set_frame, can_purge, pin, unpin, pool_free, pool_alloc,
  drop_one, get_internal, take_frame, alloc, free_internal, find_purgeable, purge_frames,
}
use ob_preliminary.Frames.Pool.{
  PageStore, flush_page_internal, purger, load_page, allocate_frame, purge_frame, get_this_page,
}
use ob_preliminary.Frames.Inv.{frame_of, IsFrames}
use ob_preliminary.Frames.Alloc.{Alloced, used_cases, take_free-IsFrames, alloc_lem}
use ob_preliminary.Frames.Purge.{KeepsPinned, Writes, purge_frames_lem}
use ob_preliminary.Frames.Loop.{AllPinned, purger-Keeps, allocate_frame_spins}
use ob_preliminary.Frames.Ends.{Given, allocate_frame_ends}
use ob_preliminary.Frames.GetPage.{PageGot, get_this_page_lem}
use ob_preliminary.Frames.PurgePage.{PagePurged, purge_page_lem}

abbrev toy : PageStore ℕ
toy = record {
  crc32 = λ bytes. length bytes;
  flush_log = λ e pool p. (e, Rc.success);
  add_page = λ e id p. (e + 1, Rc.success);
  is_open = λ e pool. true;
  read_page = λ e id p. (e, Rc.bufferpool_nobuf, p);
  seek = λ e id. (e, true);
  read_file = λ e id p. (e, true, record { lsn = pos 0; check_sum = 0; content = 7 ∷ [] });
}

abbrev page_5 : FrameId
page_5 = record { buffer_pool_id = pos 1; page_num = pos 5 }

abbrev page_6 : FrameId
page_6 = record { buffer_pool_id = pos 1; page_num = pos 6 }

abbrev blank : Frame
blank = record {
  dirty = false;
  pin_count = 0;
  frame_id = record { buffer_pool_id = negsuc 0; page_num = negsuc 0 };
  page = record { lsn = pos 0; check_sum = 0; content = [] };
}

abbrev unused : List ℕ → BpFrameManager
unused frees = record { frames = []; memory = λ b. blank; frees = frees; in_use = [] }

unused-IsFrames : IsFrames (unused (0 ∷ []))
unfolding lookup
unused-IsFrames = record {
  unique = tt;
  named = λ id a l. absurd cc;
  taken = λ id a l. absurd cc;
  idle = λ a l. refl;
  apart = λ a l. refl;
  once_free = (refl, tt);
  once_used = tt;
}

-- The pool of one frame, which page 5 has, pinned `n` times and dirty.
abbrev frame_5 : ℕ → Frame
frame_5 n = record blank { dirty = true; pin_count = n; frame_id = page_5 }

abbrev one_frame : ℕ → BpFrameManager
unfolding set_frame used without
one_frame n = record {
  frames = used equal_to page_5 0 [];
  memory = (set_frame (unused []) 0 (frame_5 n)).memory;
  frees = [];
  in_use = 0 ∷ [];
}

one_frame-IsFrames : (n : ℕ) → IsFrames (one_frame n)
unfolding lookup one_frame set_frame
one_frame-IsFrames n =
    take_free-IsFrames (unused (0 ∷ [])) page_5 0 [] (frame_5 n) unused-IsFrames refl refl refl

only_frame : (n : ℕ) (j : FrameId) (b : ℕ) → frame_of (one_frame n) j ≡ some b → 0 ≡ b
unfolding lookup one_frame
only_frame n j b l = elim (used_cases page_5 j 0 b [] l) [
  | inl (t, h) ↦ h
  | inr (o, known) ↦ absurd cc
]

one_frame-AllPinned : AllPinned (one_frame 1)
unfolding one_frame set_frame
one_frame-AllPinned j b l =
    subst (λ c. can_purge ((one_frame 1).memory c) ≡ false) (only_frame 1 j b l) refl

one_frame_5 : (n : ℕ) → frame_of (one_frame n) page_5 ≡ some 0
unfolding lookup one_frame equal_to
one_frame_5 n = refl

alloc_example : Alloced (one_frame 1) page_5
alloc_example = alloc_lem (one_frame 1) page_5 (one_frame-IsFrames 1)

purge_frames_example :
    (e' : ℕ) × (m' : BpFrameManager) × (n : ℕ) × (purge_frames
        (purger toy (pos 1))
        0
        (one_frame 0)
        1
      ≡ some (e', m', n))
    × KeepsPinned (one_frame 0) m' 1 n
    × (Writes (purger toy (pos 1))
        → n ≡ length (find_purgeable (max 1 1) (reverse (one_frame 0).frames) (one_frame 0)).1)
purge_frames_example =
    purge_frames_lem (purger toy (pos 1)) (purger-Keeps toy (pos 1)) 0 (one_frame 0) 1
      (one_frame-IsFrames 0)

spins_example : allocate_frame toy 3 0 (one_frame 1) page_6 ≡ waits
unfolding lookup one_frame equal_to
spins_example =
    allocate_frame_spins toy 0 (one_frame 1) page_6 (one_frame-IsFrames 1) refl refl
      one_frame-AllPinned 3

ends_example :
    (a : ℕ) × (e' : ℕ) × (m' : BpFrameManager) × (allocate_frame toy 2 0 (one_frame 0) page_6
      ≡ returns (e', m', Rc.success, some a))
    × Given (one_frame 0) m' page_6 a
unfolding one_frame set_frame
ends_example =
    allocate_frame_ends toy (λ e id p. refl) (λ e pool. refl) 0 (one_frame 0) page_6 0
      (one_frame-IsFrames 0) (inr (page_5, 0, one_frame_5 0, refl))

purge_page_example : PagePurged toy 0 (one_frame 1) page_5
purge_page_example = purge_page_lem toy 0 (one_frame 1) page_5 (one_frame-IsFrames 1)

get_this_page_example : PageGot toy (λ e id p. refl) (λ e pool. refl) 2 0 (one_frame 0) page_6
unfolding one_frame
get_this_page_example =
    get_this_page_lem toy (λ e id p. refl) (λ e pool. refl) 0 0 (one_frame 0) page_6
      (one_frame-IsFrames 0) (inr (page_5, 0, one_frame_5 0, refl))

-- A store that keeps what is added to the double write buffer, and cannot read.
abbrev unreadable : PageStore (List (FrameId × List ℕ))
unreadable = record {
  crc32 = λ bytes. length bytes;
  flush_log = λ e pool p. (e, Rc.success);
  add_page = λ e id p. ((id, p.content) ∷ e, Rc.success);
  is_open = λ e pool. true;
  read_page = λ e id p. (e, Rc.bufferpool_nobuf, p);
  seek = λ e id. (e, true);
  read_file = λ e id p. (e, false, p);
}

abbrev added :
    Call (List (FrameId × List ℕ) × BpFrameManager × Rc × Option ℕ) → List (FrameId × List ℕ)
added waits = []
added stops = []
added (returns r) = r.0

-- Page 5, with the byte 9, is changed and then disposed of.
abbrev changed : BpFrameManager
unfolding one_frame
changed =
    let m = one_frame 0 in
    record m {
      memory = λ b. record (m.memory b) {
        page = record { lsn = pos 0; check_sum = 0; content = 9 ∷ [] };
      };
    }

abbrev disposed : Option BpFrameManager
disposed = free_internal (get_internal changed page_5).0 page_5 0

get_after_dispose : Option BpFrameManager → List (FrameId × List ℕ)
get_after_dispose none = []
get_after_dispose (some m) = added (get_this_page unreadable 2 [] m page_6)

-- The frame that page 5 left is still dirty: when page 6 cannot be read into it, what page 5 held is added as page 6.
disposed_page_written : get_after_dispose disposed ≡ (page_6, 9 ∷ []) ∷ []
unfolding get_after_dispose changed one_frame set_frame free_internal get_internal get_this_page
    lookup used without looked_up unpin pin pool_free drop_one equal_to allocate_frame alloc
    take_frame pool_alloc load_page purge_frame flush_page_internal
disposed_page_written = refl

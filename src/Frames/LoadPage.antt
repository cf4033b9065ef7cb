-- ===== src/Frames/LoadPage.antt =====
-- load_page: the reading of a page into its frame.
use ob_preliminary.Common.{◌≡◌, refl, sym, subst, ap, Bool, true, false, if◌then◌else◌}
use ob_preliminary.Common.Rc.{Rc, ob_succ, is_success}
use ob_preliminary.Frames.{FrameId, Page, Frame, set_page_num}
use ob_preliminary.Frames.Pool.{PageStore, load_page}

module _ {ℓ} {E : Type ℓ} (store : PageStore E) where
  -- A frame of page `id`, as often pinned as `f` and as dirty.
  abbrev pub Loads : FrameId → Frame → E × Rc × Frame → Type 0
  Loads id f r = (r.2.pin_count ≡ f.pin_count) × (r.2.frame_id ≡ id) × (r.2.dirty ≡ f.dirty)

  if-Loads :
      (id : FrameId) (f : Frame) (c : Bool) (x y : E × Rc × Frame)
      → Loads id f x
      → Loads id f y
      → Loads id f (if c then x else y)
  if-Loads id f true x y h k = h
  if-Loads id f false x y h k = k

  pub load_page-Loads :
      (e : E) (id : FrameId) (f : Frame) → f.frame_id ≡ id → Loads id f (load_page store e id f)
  unfolding load_page
  load_page-Loads e id f n =
      let (e', rc, page) = store.read_page e id f.page in
      let g = record f { page = page } in
      let (e'', found) = store.seek e' id in
      let (e3, ok, page') = store.read_file e'' id page in
      let h = record f { page = page' } in
      let named : (set_page_num h id.page_num).frame_id ≡ id =
        ap (λ (i : FrameId). let j : FrameId = record i { page_num = id.page_num } in j) n in
      let read =
        if ok then (e3, Rc.success, set_page_num h id.page_num) else (e3, Rc.ioerr_read, h) in
      let file = if found then read else (e'', Rc.ioerr_seek, g) in
      if-Loads id f (ob_succ rc) (e', rc, g) file (refl, n, refl)
        (if-Loads id f found read (e'', Rc.ioerr_seek, g)
          (if-Loads id f ok (e3, Rc.success, set_page_num h id.page_num) (e3, Rc.ioerr_read, h)
            (refl, named, refl) (refl, n, refl))
          (refl, n, refl))

  -- The reading of a page: from the double write buffer, or else from the file after a seek; with what it leaves, its code
  -- and the content that the page has then.
  pub data PageRead (e : E) (id : FrameId) (p : Page) : E → Rc → Page → Type ℓ where
    buffered :
        {e1 : E} {p1 : Page}
        → store.read_page e id p ≡ (e1, Rc.success, p1)
        → PageRead e id p e1 Rc.success p1
    no_seek :
        {e1 e2 : E} {rc : Rc} {p1 : Page}
        → store.read_page e id p ≡ (e1, rc, p1)
        → ob_succ rc ≡ false
        → store.seek e1 id ≡ (e2, false)
        → PageRead e id p e2 Rc.ioerr_seek p1
    from_file :
        {e1 e2 e3 : E} {rc : Rc} {p1 p2 : Page}
        → store.read_page e id p ≡ (e1, rc, p1)
        → ob_succ rc ≡ false
        → store.seek e1 id ≡ (e2, true)
        → store.read_file e2 id p1 ≡ (e3, true, p2)
        → PageRead e id p e3 Rc.success p2
    no_read :
        {e1 e2 e3 : E} {rc : Rc} {p1 p2 : Page}
        → store.read_page e id p ≡ (e1, rc, p1)
        → ob_succ rc ≡ false
        → store.seek e1 id ≡ (e2, true)
        → store.read_file e2 id p1 ≡ (e3, false, p2)
        → PageRead e id p e3 Rc.ioerr_read p2

  unfoldable pub Reads : E → FrameId → Page → E × Rc × Frame → Type ℓ
  Reads e id p r = PageRead e id p r.0 r.1 r.2.page

  if-Reads :
      (e : E) (id : FrameId) (p : Page) (c : Bool) (x y : E × Rc × Frame)
      → (c ≡ true → Reads e id p x)
      → (c ≡ false → Reads e id p y)
      → Reads e id p (if c then x else y)
  if-Reads e id p true x y h k = h refl
  if-Reads e id p false x y h k = k refl

  pub load_page-Reads :
      (e : E) (id : FrameId) (f : Frame) → Reads e id f.page (load_page store e id f)
  unfolding load_page Reads
  load_page-Reads e id f =
      let (e', rc, page) = store.read_page e id f.page in
      let g = record f { page = page } in
      let (e'', found) = store.seek e' id in
      let (e3, ok, page') = store.read_file e'' id page in
      let h = record f { page = page' } in
      let read =
        if ok then (e3, Rc.success, set_page_num h id.page_num) else (e3, Rc.ioerr_read, h) in
      let file = if found then read else (e'', Rc.ioerr_seek, g) in
      if-Reads e id f.page (ob_succ rc) (e', rc, g) file
        (λ t.
          subst (λ c. PageRead e id f.page e' c page) (sym (is_success rc t))
            (buffered (ap (λ c. (e', c, page)) (is_success rc t))))
        (λ n.
          if-Reads e id f.page found read (e'', Rc.ioerr_seek, g)
            (λ s.
              if-Reads e id f.page ok (e3, Rc.success, set_page_num h id.page_num)
                (e3, Rc.ioerr_read, h)
                (λ y. from_file refl n (ap (λ b. (e'', b)) s) (ap (λ b. (e3, b, page')) y))
                (λ z. no_read refl n (ap (λ b. (e'', b)) s) (ap (λ b. (e3, b, page')) z)))
            (λ s. no_seek refl n (ap (λ b. (e'', b)) s)))

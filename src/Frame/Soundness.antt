-- ===== src/Frame/Soundness.antt =====
-- What read_frame returns, against the bytes that it took.
use libamqp_cpp.Base.{
  ℕ, zero, suc, ◌+◌, ◌/◌, ◌%◌, ◌^◌, ◌<◌, ◌≡◌, ◌≢◌, refl, sym, ap, subst, ◌∙◌, inl, inr, List, [],
  ◌∷◌, ◌++◌, Result, ok, ok-injective, >>=-eq-ok, arith, length, replicate, Bool, false, Bool-cases,
  ◌==◌, ==→eq,
}
use libamqp_cpp.Byteswap.Laws.{be_bytes}
use libamqp_cpp.Stream.{IStream, istream}
use libamqp_cpp.Wire.{read_uint8}
use libamqp_cpp.Wire.Integers.{read_uint8-be}
use libamqp_cpp.Frame.{
  FrameConstants, IsFrameSpec, FrameType, Frame, FrameBuilder, Transport, type_value,
  get_frame_type, reset, fill_header, parse_header, validate_header, is_body_read_required,
  read_frame,
}
use libamqp_cpp.Frame.Wire.{header_bytes, frame_bytes}
use libamqp_cpp.Frame.Builder.{
  frame_of, empty_required, empty_created, empty_refused, headed_required, headed_buffers,
  headed_filled, filled_created, filled_refused,
}
use libamqp_cpp.Frame.Reader.{IsFullFrame, split}
use libamqp_cpp.Frame.Octets.{AreOctets, AreOctets-left, AreOctets-right, last_of, header_of}

-- The documented behaviour of a read that returns: it has taken as many bytes as it was asked for,
-- which came first.
pub record IsExact (net : Transport) (incoming : net.Socket → List ℕ) : Type 0 where
  pub taken :
      (n : ℕ) (s s' : net.Socket) (bs : List ℕ)
      → net.read n s ≡ ok (bs, s')
      → (length bs ≡ n) × (incoming s ≡ bs ++ incoming s')

read_head :
    (o : ℕ) (rest : List ℕ) → o < 2 ^ 8 → read_uint8 (istream (o ∷ rest)) ≡ ok (o, istream rest)
unfolding be_bytes
read_head o rest h =
    let one : o / 1 % 256 ≡ o = omega arith in
    subst (λ y. read_uint8 (istream (y ∷ rest)) ≡ ok (o, istream rest)) one (read_uint8-be o rest h)

module _ (c : FrameConstants) where
  get_frame_type-eq : (o : ℕ) (t : FrameType) → get_frame_type c o ≡ ok t → type_value c t ≡ o
  unfolding get_frame_type type_value
  get_frame_type-eq o t h = ground arith

  -- A header that is accepted begins with the value of a type.
  typed :
      (o : ℕ) (rest : List ℕ) (b b₁ : FrameBuilder) (required : Bool)
      → o < 2 ^ 8
      → is_body_read_required c (fill_header (o ∷ rest) (reset b)) ≡ ok (required, b₁)
      → (t : FrameType) × (type_value c t ≡ o)
  unfolding is_body_read_required validate_header parse_header fill_header reset be_bytes
  typed o rest b b₁ required l e =
      let (b', valid, e') = >>=-eq-ok (validate_header c (fill_header (o ∷ rest) (reset b))) _ e in
      let ((q, i), read, e₂) = >>=-eq-ok (read_uint8 (istream (o ∷ rest))) _ valid in
      let (t, found, e₃) = >>=-eq-ok (get_frame_type c q) _ e₂ in
      (
        t,
        get_frame_type-eq q t found
            ∙ ap (λ (x : ℕ × IStream). x.0) (ok-injective (sym read ∙ read_head o rest l)),
      )

length-replicate : (n : ℕ) → length {A = ℕ} (replicate n 0) ≡ n
length-replicate zero = refl
length-replicate (suc n) = ap suc (length-replicate n)

==→ne : (a b : ℕ) → (a == b) ≡ false → a ≢ b
==→ne a b h = λ e. ground arith

module _ (c : FrameConstants) (spec : IsFrameSpec c) (net : Transport)
    (incoming : net.Socket → List ℕ) (exact : IsExact net incoming) where
  -- What is to be shown of a frame that was returned.
  abbrev Taken : net.Socket → net.Socket → Frame → Type 0
  Taken s s' fr = IsFullFrame fr × (incoming s ≡ frame_bytes c fr ++ incoming s')

  full_of :
      (t : FrameType) (ch : ℕ) (xs : List ℕ)
      → ch < 2 ^ 16
      → length xs < 2 ^ 32
      → AreOctets xs
      → IsFullFrame (frame_of t ch xs)
  full_of t ch xs h l o = record {
    channel_lt = h;
    size_lt = l;
    full = refl;
    octets = λ x ys e. (subst AreOctets e o).0;
  }

  Taken-from :
      (b' : FrameBuilder) (s s₂ s' : net.Socket) (fr gr : Frame) (b₂ : FrameBuilder)
      → ◌≡◌ {A = Result (Frame × FrameBuilder × net.Socket)} (ok (gr, b₂, s₂)) (ok (fr, b', s'))
      → Taken s s₂ gr
      → Taken s s' fr
  Taken-from b' s s₂ s' fr gr b₂ h =
      subst (λ (x : Frame × FrameBuilder × net.Socket). Taken s x.2 x.0) (ok-injective h)

  without_body :
      (t : FrameType) (ch l : ℕ) (b b' : FrameBuilder) (s s₁ s' : net.Socket) (fr : Frame)
      → ch < 2 ^ 16
      → l < 2 ^ 8
      → net.read 8 s ≡ ok (header_bytes c (frame_of t ch []) ++ l ∷ [], s₁)
      → incoming s ≡ (header_bytes c (frame_of t ch []) ++ l ∷ []) ++ incoming s₁
      → read_frame c net b s ≡ ok (fr, b', s')
      → Taken s s' fr
  unfolding read_frame
  without_body t ch l b b' s s₁ s' fr h hl got e₁ e = elim (Bool-cases (l == c.frame_end)) [
    | inl p ↦
        let last = ==→eq l c.frame_end p in
        let done =
          rw (got, last, empty_required c spec t ch h b, empty_created c spec t ch h) at e in
        Taken-from b' s s₁ s' fr _ _ done (
          full_of t ch [] h (omega arith) tt,
          e₁ ∙ ap (λ y. (header_bytes c (frame_of t ch []) ++ y ∷ []) ++ incoming s₁) last,
        )
    | inr p ↦
        let refused = empty_refused c spec t ch h l b hl (==→ne l c.frame_end p) in
        absurd (cc (rw (got, refused) at e))
  ]

  -- With a payload, the body and the end octet are read behind the header.
  body_comes :
      (t : FrameType) (ch l : ℕ) (d : List ℕ) (b b' : FrameBuilder) (s s₁ s' : net.Socket)
      (fr : Frame)
      → ch < 2 ^ 16
      → l < 2 ^ 8
      → suc (length d) < 2 ^ 32
      → net.read 8 s ≡ ok (header_bytes c (frame_of t ch (l ∷ d)) ++ l ∷ [], s₁)
      → read_frame c net b s ≡ ok (fr, b', s')
      → (body : List ℕ) × (s₂ : net.Socket) × (net.read (length d + 1) s₁ ≡ ok (body, s₂))
  unfolding read_frame
  body_comes t ch l d b b' s s₁ s' fr h hl hd got e =
      let required = headed_required c spec t ch h l d b hd hl in
      let e₁ = rw (got, required, headed_buffers c spec t ch h l d hd) at e in
      let (pair, inner, e₂) = >>=-eq-ok _ _ e₁ in
      let ((body, s₂), got₂, e₃) = >>=-eq-ok (net.read (length d + 1) s₁) _ inner in
      (body, s₂, got₂)

  with_body :
      (t : FrameType) (ch l : ℕ) (xs : List ℕ) (y : ℕ) (b b' : FrameBuilder)
      (s s₁ s₂ s' : net.Socket) (fr : Frame)
      → ch < 2 ^ 16
      → l < 2 ^ 8
      → suc (length xs) < 2 ^ 32
      → AreOctets xs
      → net.read 8 s ≡ ok (header_bytes c (frame_of t ch (l ∷ xs)) ++ l ∷ [], s₁)
      → incoming s ≡ (header_bytes c (frame_of t ch (l ∷ xs)) ++ l ∷ []) ++ incoming s₁
      → net.read (length xs + 1) s₁ ≡ ok (xs ++ y ∷ [], s₂)
      → incoming s₁ ≡ (xs ++ y ∷ []) ++ incoming s₂
      → read_frame c net b s ≡ ok (fr, b', s')
      → Taken s s' fr
  unfolding read_frame
  with_body t ch l xs y b b' s s₁ s₂ s' fr h hl hd octets got e₁ got₂ e₂ e =
      let required = headed_required c spec t ch h l xs b hd hl in
      let buffers = headed_buffers c spec t ch h l xs hd in
      let filled = headed_filled c spec t ch h l xs y in
      elim (Bool-cases (y == c.frame_end)) [
        | inl p ↦
            let last = ==→eq y c.frame_end p in
            let created = filled_created c spec t ch h l xs in
            let done = rw (got, required, buffers, got₂, filled, last, created) at e in
            Taken-from b' s s₂ s' fr _ _ done (
              full_of t ch (l ∷ xs) h hd (hl, octets),
              e₁
                  ∙ ap (λ zs. (header_bytes c (frame_of t ch (l ∷ xs)) ++ l ∷ []) ++ zs) e₂
                  ∙ sym (split c t ch l xs y (incoming s₂))
                  ∙ ap
                      (λ z.
                        (header_bytes c (frame_of t ch (l ∷ xs)) ++ ((l ∷ xs) ++ z ∷ []))
                        ++ incoming s₂)
                      last,
            )
        | inr p ↦
            let refused = filled_refused c spec t ch h l xs y (==→ne y c.frame_end p) in
            absurd (cc (rw (got, required, buffers, got₂, filled, refused) at e))
      ]

  -- A header of eight bytes, with the size that it announces.
  abbrev eight : FrameType → ℕ → ℕ → ℕ → List ℕ
  eight t ch n l = (be_bytes 1 (type_value c t) ++ (be_bytes 2 ch ++ be_bytes 4 n)) ++ l ∷ []

  from_body :
      (k : ℕ) (t : FrameType) (ch l : ℕ) (body : List ℕ) (b b' : FrameBuilder)
      (s s₁ s₂ s' : net.Socket) (fr : Frame)
      → ch < 2 ^ 16
      → l < 2 ^ 8
      → suc k < 2 ^ 32
      → AreOctets (incoming s₁)
      → net.read 8 s ≡ ok (eight t ch (suc k) l, s₁)
      → incoming s ≡ eight t ch (suc k) l ++ incoming s₁
      → net.read (k + 1) s₁ ≡ ok (body, s₂)
      → read_frame c net b s ≡ ok (fr, b', s')
      → Taken s s' fr
  from_body k t ch l body b b' s s₁ s₂ s' fr h hl hn octets got e₁ got₂ e =
      let (len, e₂) = exact.taken (k + 1) s₁ s₂ body got₂ in
      let (xs, y, whole, lxs) = last_of k body (omega (arith, len)) in
      let came : incoming s₁ ≡ (xs ++ y ∷ []) ++ incoming s₂ =
        e₂ ∙ ap (λ zs. zs ++ incoming s₂) whole in
      let octets₂ = AreOctets-left (xs ++ y ∷ []) (incoming s₂) (subst AreOctets came octets) in
      with_body t ch l xs y b b' s s₁ s₂ s' fr h hl (omega (arith, lxs, hn))
        (AreOctets-left xs (y ∷ []) octets₂)
        (subst (λ m. net.read 8 s ≡ ok (eight t ch (suc m) l, s₁)) (sym lxs) got)
        (subst (λ m. incoming s ≡ eight t ch (suc m) l ++ incoming s₁) (sym lxs) e₁)
        (subst (λ m. net.read (m + 1) s₁ ≡ ok (xs ++ y ∷ [], s₂)) (sym lxs)
          (got₂ ∙ ap (λ (zs : List ℕ). ok (zs, s₂)) whole))
        came e

  by_size :
      (n : ℕ) (t : FrameType) (ch l : ℕ) (b b' : FrameBuilder) (s s₁ s' : net.Socket) (fr : Frame)
      → ch < 2 ^ 16
      → l < 2 ^ 8
      → n < 2 ^ 32
      → AreOctets (incoming s₁)
      → net.read 8 s ≡ ok (eight t ch n l, s₁)
      → incoming s ≡ eight t ch n l ++ incoming s₁
      → read_frame c net b s ≡ ok (fr, b', s')
      → Taken s s' fr
  by_size zero t ch l b b' s s₁ s' fr h hl hn octets got e₁ e =
      without_body t ch l b b' s s₁ s' fr h hl got e₁ e
  by_size (suc k) t ch l b b' s s₁ s' fr h hl hn octets got e₁ e =
      let d = replicate k 0 in
      let same : k ≡ length d = sym (length-replicate k) in
      let (body, s₂, got₂) =
        body_comes t ch l d b b' s s₁ s' fr h hl (omega (arith, same, hn))
          (subst (λ m. net.read 8 s ≡ ok (eight t ch (suc m) l, s₁)) same got) e in
      from_body k t ch l body b b' s s₁ s₂ s' fr h hl hn octets got e₁
        (subst (λ m. net.read (m + 1) s₁ ≡ ok (body, s₂)) (sym same) got₂) e

  -- The bytes that come in are octets, and a read that returns has taken those that came first.
  -- When read_frame returns a frame, its fields are in range and its buffer is filled, and the
  -- bytes that it has taken off the connection are exactly the layout of this frame.
  pub read_frame_sound :
      (fr : Frame) (b b' : FrameBuilder) (s s' : net.Socket)
      → AreOctets (incoming s)
      → read_frame c net b s ≡ ok (fr, b', s')
      → IsFullFrame fr × (incoming s ≡ frame_bytes c fr ++ incoming s')
  unfolding read_frame
  read_frame_sound fr b b' s s' octets e =
      let ((bs, s₁), got, e₁) = >>=-eq-ok (net.read 8 s) _ e in
      let ((required, b₁), judged, e₂) = >>=-eq-ok (is_body_read_required c _) _ e₁ in
      let (len, came) = exact.taken 8 s s₁ bs got in
      let both = subst AreOctets came octets in
      let left = AreOctets-left bs (incoming s₁) both in
      let right = AreOctets-right bs (incoming s₁) both in
      let (o, rest, ch, n, l, ho, hc, hn, hl, begins, layout) = header_of bs len left in
      let (t, same) = typed c o rest b b₁ required ho (
        subst (λ zs. is_body_read_required c (fill_header zs (reset b)) ≡ ok (required, b₁)) begins
          judged) in
      let whole : bs ≡ eight t ch n l =
        layout ∙ ap (λ v. (be_bytes 1 v ++ (be_bytes 2 ch ++ be_bytes 4 n)) ++ l ∷ []) (sym same) in
      by_size n t ch l b b' s s₁ s' fr hc hl hn right
        (got ∙ ap (λ (zs : List ℕ). ok (zs, s₁)) whole) (came ∙ ap (λ zs. zs ++ incoming s₁) whole)
        e

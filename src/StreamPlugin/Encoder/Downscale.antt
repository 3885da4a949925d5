-- ===== src/StreamPlugin/Encoder/Downscale.antt =====
-- downscale stays inside the image and fills the output.
use native.Mathlib.Nat.{mul-le-mul_right, mul-le-mul, div-lt_iff_lt-mul}
use wii_sec_u.Base.{
  ℕ, zero, suc, ◌+◌, ◌-◌, ◌*◌, ◌/◌, ◌%◌, ◌^◌, ◌≤◌, ◌<◌, ◌≡◌, refl, sym, ap, ◌∙◌, List, [], ◌∷◌,
  ◌++◌, some, get_or, length, arith, get_elem?-eq-get_or, length-append,
}
use wii_sec_u.StreamPlugin.Surface.{CapturedSurface}
use wii_sec_u.StreamPlugin.Encoder.{
  scaled, rgb_of, down_row, down_rows, downscale, out_size, max_out_w, max_out_h, jpeg_cap,
}

no_wrap : (i size : ℕ) → i ≤ 1023 → size ≤ 2 ^ 20 → i * size % 2 ^ 32 ≡ i * size
no_wrap i size few z = omega (arith, mul-le-mul few z)

-- The source coordinate of an output coordinate lies in the source.
scaled-lt :
    (i size out : ℕ) → i < out → 0 < size → out ≤ 2 ^ 10 → size ≤ 2 ^ 20 → scaled i size out < size
scaled-lt i size out b s o z = rw (no_wrap i size (omega arith) z) (
    (div-lt_iff_lt-mul {k = out} {x = i * size} {y = size} (omega arith)).1
      (omega (arith, mul-le-mul_right {m = suc i} {n = out} size b)))

-- A surface whose image has all its rows.
pub record Readable (pixels : List ℕ) (src : CapturedSurface) : Type 0 where
  pub some_width : 0 < src.captured_width
  pub some_height : 0 < src.captured_height
  pub width_fits : src.captured_width ≤ 2 ^ 20
  pub height_fits : src.captured_height ≤ 2 ^ 20
  pub row_fits : src.captured_width ≤ src.captured_pitch
  pub whole : src.captured_height * src.captured_pitch ≤ length pixels

-- What the output row is to be.
abbrev pub wanted_row : ℕ → List ℕ → ℕ → ℕ → ℕ → ℕ → List ℕ
wanted_row zero pixels base width out_w x = []
wanted_row (suc n) pixels base width out_w x =
    rgb_of (get_or pixels (base + scaled x width out_w) 0)
    ++ wanted_row n pixels base width out_w (suc x)

abbrev pub wanted_rows : ℕ → List ℕ → CapturedSurface → ℕ → ℕ → ℕ → List ℕ
wanted_rows zero pixels src out_w out_h y = []
wanted_rows (suc n) pixels src out_w out_h y =
    wanted_row out_w pixels (scaled y src.captured_height out_h * src.captured_pitch)
      src.captured_width out_w 0
    ++ wanted_rows n pixels src out_w out_h (suc y)

length-wanted_row :
    (n : ℕ) (pixels : List ℕ) (base width out_w x : ℕ)
    → length (wanted_row n pixels base width out_w x) ≡ n * 3
length-wanted_row zero pixels base width out_w x = refl
length-wanted_row (suc n) pixels base width out_w x =
    omega (arith, length-wanted_row n pixels base width out_w (suc x))

down_row-wanted :
    (n : ℕ) (pixels : List ℕ) (base width out_w x : ℕ)
    → x + n ≤ out_w
    → 0 < width
    → width ≤ 2 ^ 20
    → out_w ≤ 2 ^ 10
    → base + width ≤ length pixels
    → down_row n pixels base width out_w x ≡ some (wanted_row n pixels base width out_w x)
unfolding down_row
down_row-wanted zero pixels base width out_w x e w big o room = refl
down_row-wanted (suc n) pixels base width out_w x e w big o room =
    let inside = scaled-lt x width out_w (omega arith) w o big in
    let px = get_elem?-eq-get_or pixels (base + scaled x width out_w) 0 (omega arith) in
    let rest = down_row-wanted n pixels base width out_w (suc x) (omega arith) w big o room in
    rw (px, rest) refl

down_rows-wanted :
    (n : ℕ) (pixels : List ℕ) (src : CapturedSurface) (out_w out_h y : ℕ)
    → y + n ≤ out_h
    → out_w ≤ 2 ^ 10
    → out_h ≤ 2 ^ 10
    → Readable pixels src
    → down_rows n pixels src out_w out_h y ≡ some (wanted_rows n pixels src out_w out_h y)
unfolding down_rows
down_rows-wanted zero pixels src out_w out_h y e w h r = refl
down_rows-wanted (suc n) pixels src out_w out_h y e w h r =
    let inside =
      scaled-lt y src.captured_height out_h (omega arith) r.some_height h r.height_fits in
    let rows =
      mul-le-mul_right {m = suc (scaled y src.captured_height out_h)} {n = src.captured_height}
        src.captured_pitch inside in
    let row =
      down_row-wanted out_w pixels (scaled y src.captured_height out_h * src.captured_pitch)
        src.captured_width out_w 0 (omega arith) r.some_width r.width_fits w
        (omega (arith, r.row_fits, r.whole)) in
    let rest = down_rows-wanted n pixels src out_w out_h (suc y) (omega arith) w h r in
    rw (row, rest) refl

length-wanted_rows :
    (n : ℕ) (pixels : List ℕ) (src : CapturedSurface) (out_w out_h y : ℕ)
    → length (wanted_rows n pixels src out_w out_h y) ≡ n * (out_w * 3)
length-wanted_rows zero pixels src out_w out_h y =
    let e : 0 * (out_w * 3) ≡ 0 = omega arith in sym e
length-wanted_rows (suc n) pixels src out_w out_h y =
    let rest = length-wanted_rows n pixels src out_w out_h (suc y) in
    let first =
      length-wanted_row out_w pixels (scaled y src.captured_height out_h * src.captured_pitch)
        src.captured_width out_w 0 in
    length-append
      (wanted_row out_w pixels (scaled y src.captured_height out_h * src.captured_pitch)
        src.captured_width out_w 0)
      (wanted_rows n pixels src out_w out_h (suc y))
    ∙ rw (first, rest) (omega arith)

-- Red, green and blue of a word, by their numbers.
abbrev pub channel : ℕ → ℕ → ℕ
channel px c = px / 2 ^ (24 - 8 * c) % 2 ^ 8

get_or-append_left :
    (xs ys : List ℕ) (i : ℕ) → i < length xs → get_or (xs ++ ys) i 0 ≡ get_or xs i 0
get_or-append_left [] ys i h = absurd (omega arith)
get_or-append_left (x ∷ xs) ys zero h = refl
get_or-append_left (x ∷ xs) ys (suc i) h = get_or-append_left xs ys i (omega arith)

get_or-append_right : (xs ys : List ℕ) (i : ℕ) → get_or (xs ++ ys) (length xs + i) 0 ≡ get_or ys i 0
get_or-append_right [] ys i = ap (λ j. get_or ys j 0) (omega arith)
get_or-append_right (x ∷ xs) ys i =
    let e : suc (length xs) + i ≡ suc (length xs + i) = omega arith in
    rw e (get_or-append_right xs ys i)

wanted_row-channel :
    (n : ℕ) (pixels : List ℕ) (base width out_w x k c : ℕ)
    → k < n
    → c < 3
    → get_or (wanted_row n pixels base width out_w x) (k * 3 + c) 0
      ≡ channel (get_or pixels (base + scaled (x + k) width out_w) 0) c
wanted_row-channel zero pixels base width out_w x k c h b = absurd (omega arith)
wanted_row-channel (suc n) pixels base width out_w x zero zero h b =
    let e : x + 0 ≡ x = omega arith in rw e refl
wanted_row-channel (suc n) pixels base width out_w x zero (suc zero) h b =
    let e : x + 0 ≡ x = omega arith in rw e refl
wanted_row-channel (suc n) pixels base width out_w x zero (suc (suc zero)) h b =
    let e : x + 0 ≡ x = omega arith in rw e refl
wanted_row-channel (suc n) pixels base width out_w x zero (suc (suc (suc c))) h b =
    absurd (omega arith)
wanted_row-channel (suc n) pixels base width out_w x (suc k) c h b =
    let e : x + suc k ≡ suc x + k = omega arith in
    let i : suc k * 3 + c ≡ suc (suc (suc (k * 3 + c))) = omega arith in
    rw (e, i) (wanted_row-channel n pixels base width out_w (suc x) k c (omega arith) b)

wanted_rows-row :
    (n : ℕ) (pixels : List ℕ) (src : CapturedSurface) (out_w out_h y k i : ℕ)
    → k < n
    → i < out_w * 3
    → get_or (wanted_rows n pixels src out_w out_h y) (k * (out_w * 3) + i) 0
      ≡ get_or
          (wanted_row out_w pixels
            (scaled (y + k) src.captured_height out_h * src.captured_pitch)
            src.captured_width
            out_w
            0)
          i
          0
wanted_rows-row zero pixels src out_w out_h y k i h b = absurd (omega arith)
wanted_rows-row (suc n) pixels src out_w out_h y zero i h b =
    let first = row_of y in
    let size =
      length-wanted_row out_w pixels (scaled y src.captured_height out_h * src.captured_pitch)
        src.captured_width out_w 0 in
    let e : y + 0 ≡ y = omega arith in
    let j : 0 * (out_w * 3) + i ≡ i = omega arith in
    rw (e, j)
      (get_or-append_left first (wanted_rows n pixels src out_w out_h (suc y)) i
        (omega (arith, size)))
  where
    row_of : ℕ → List ℕ
    row_of y =
        wanted_row out_w pixels (scaled y src.captured_height out_h * src.captured_pitch)
          src.captured_width out_w 0
wanted_rows-row (suc n) pixels src out_w out_h y (suc k) i h b =
    let first =
      wanted_row out_w pixels (scaled y src.captured_height out_h * src.captured_pitch)
        src.captured_width out_w 0 in
    let size =
      length-wanted_row out_w pixels (scaled y src.captured_height out_h * src.captured_pitch)
        src.captured_width out_w 0 in
    let e : y + suc k ≡ suc y + k = omega arith in
    let j : suc k * (out_w * 3) + i ≡ length first + (k * (out_w * 3) + i) =
      rw size (omega arith) in
    rw (e, j)
      (get_or-append_right first (wanted_rows n pixels src out_w out_h (suc y))
          (k * (out_w * 3) + i)
        ∙ wanted_rows-row n pixels src out_w out_h (suc y) k i (omega arith) b)

-- Of an image with at least `pitch` words in each of its rows, and for any configured size: downscale
-- reads nothing outside the image, fills no more bytes than the buffers have, and gives each byte of the
-- output that channel of the source pixel in the same place.
pub downscale_lem :
    (pixels : List ℕ) (src : CapturedSurface) (width height : ℕ)
    → Readable pixels src
    → let out_w = out_size max_out_w width in
      let out_h = out_size max_out_h height in
      (rgb : List ℕ) × (downscale pixels src out_w out_h ≡ some rgb)
      × (length rgb ≡ out_h * (out_w * 3))
      × (length rgb ≤ jpeg_cap)
      × ((y x c : ℕ)
          → y < out_h
          → x < out_w
          → c < 3
          → get_or rgb (y * (out_w * 3) + (x * 3 + c)) 0
            ≡ channel
                (get_or pixels
                  (y * src.captured_height / out_h * src.captured_pitch
                    + x * src.captured_width / out_w)
                  0)
                c)
unfolding downscale
downscale_lem pixels src width height r =
    let w : out_size max_out_w width ≤ max_out_w = ground arith in
    let h : out_size max_out_h height ≤ max_out_h = ground arith in
    let out_w = out_size max_out_w width in
    let out_h = out_size max_out_h height in
    let size = length-wanted_rows out_h pixels src out_w out_h 0 in
    (
      wanted_rows out_h pixels src out_w out_h 0,
      down_rows-wanted out_h pixels src out_w out_h 0 (omega arith) (omega arith) (omega arith) r,
      size,
      omega (arith, size, mul-le-mul h w),
      λ y x c hy hx hc.
          let zy : 0 + y ≡ y = omega arith in
          let zx : 0 + x ≡ x = omega arith in
          let row =
            rw zy at
              (wanted_rows-row out_h pixels src out_w out_h 0 y (x * 3 + c) hy (omega arith)) in
          let px = rw zx at (
            wanted_row-channel out_w pixels
              (scaled y src.captured_height out_h * src.captured_pitch) src.captured_width out_w 0 x
              c hx hc) in
          let ey : y * src.captured_height % 2 ^ 32 ≡ y * src.captured_height =
            no_wrap y src.captured_height (omega arith) r.height_fits in
          let ex : x * src.captured_width % 2 ^ 32 ≡ x * src.captured_width =
            no_wrap x src.captured_width (omega arith) r.width_fits in
          rw (ey, ex) at (row ∙ px),
    )

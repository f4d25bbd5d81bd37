-- ===== src/Text/Getline.antt =====
-- What `std::getline` leaves behind on texts with and without the delimiter.
use dpn.Prelude.{ℕ, ◌≡◌, refl, true, false, [], ◌∷◌, ◌++◌, Bytes, Lacks, arith, ==_refl}
use dpn.Text.{open_stream, split_at, getline}

split_at-Lacks : (d : ℕ) (w : Bytes) → Lacks d (split_at d w).0
unfolding split_at
split_at-Lacks d [] = tt
split_at-Lacks d (c ∷ cs) = ground (arith, split_at-Lacks d cs)

split_at-append :
    (d : ℕ) (w rest : Bytes)
    → Lacks d w
    → split_at d (w ++ d ∷ rest) ≡ (w, record { rest = rest; good = true })
unfolding split_at
split_at-append d [] rest h = rw (==_refl d)
split_at-append d (c ∷ cs) rest h = ground (arith, split_at-append d cs rest h.1)

split_at_end :
    (d : ℕ) (w : Bytes) → Lacks d w → split_at d w ≡ (w, record { rest = []; good = false })
unfolding split_at
split_at_end d [] h = refl
split_at_end d (c ∷ cs) h = ground (arith, split_at_end d cs h.1)

-- A text with the delimiter is cut there.
pub getline_found :
    (d : ℕ) (w rest text : Bytes)
    → Lacks d w
    → getline (record { rest = w ++ d ∷ rest; good = true }) text d
      ≡ (w, record { rest = rest; good = true })
unfolding getline
getline_found d w rest text h = split_at-append d w rest h

-- A text without it is read to the end.
pub getline_last :
    (d : ℕ) (w text : Bytes)
    → Lacks d w
    → getline (record { rest = w; good = true }) text d ≡ (w, record { rest = []; good = false })
unfolding getline
getline_last d w text h = split_at_end d w h

pub getline-Lacks : (d : ℕ) (w text : Bytes) → Lacks d (getline (open_stream w) text d).0
unfolding getline
getline-Lacks d w text = split_at-Lacks d w

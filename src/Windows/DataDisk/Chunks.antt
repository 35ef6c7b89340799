-- ===== src/Windows/DataDisk/Chunks.antt =====
-- The loop that copies the disk out of the archive ends, and copies all of it.
use finch.Prelude.{
  ℕ, zero, suc, ◌-◌, ◌*◌, ◌/◌, ◌<◌, true, false, none, List, [], ◌∷◌, ◌++◌, length, leb, ok, ◌≡◌,
  refl, sym, ap, ◌∙◌, arith, append-nil, append_assoc, ◌==◌, Bool-cases, inl, inr,
}
use finch.Windows.DataDisk.{
  DiskHost, take, drop, chunk_size, copy_chunks, fill, unpack, create_disk, ZipFile,
}

take-append-drop : (n : ℕ) (bs : List ℕ) → take n bs ++ drop n bs ≡ bs
unfolding take drop
take-append-drop n [] = refl
take-append-drop zero (b ∷ bs) = refl
take-append-drop (suc n) (b ∷ bs) = ap (λ l. b ∷ l) (take-append-drop n bs)

length-drop : (n : ℕ) (bs : List ℕ) → length (drop n bs) ≡ length bs - n
unfolding drop
length-drop n [] = omega arith
length-drop zero (b ∷ bs) = omega arith
length-drop (suc n) (b ∷ bs) = omega (arith, length-drop n bs)

drop-all : (n : ℕ) (bs : List ℕ) → length bs < n → drop n bs ≡ []
unfolding drop
drop-all n [] h = refl
drop-all zero (b ∷ bs) h = absurd (omega arith)
drop-all (suc n) (b ∷ bs) h = drop-all n bs (omega arith)

take-all : (n : ℕ) (bs : List ℕ) → length bs < n → take n bs ≡ bs
take-all n bs h =
    sym (append-nil (take n bs))
    ∙ ap (λ l. take n bs ++ l) (sym (drop-all n bs h))
    ∙ take-append-drop n bs

-- What the destination holds, where opening empties it, every write adds its bytes, and closing
-- changes nothing.
pub record IsAppending (h : DiskHost) (content : h.World → List ℕ) : Type 0 where
  pub write_ok : (bs : List ℕ) (w : h.World) → (h.write_dest bs w).0 ≡ ok tt
  pub write_adds : (bs : List ℕ) (w : h.World) → content (h.write_dest bs w).1 ≡ content w ++ bs
  pub open_ok : (w : h.World) → (h.open_dest h.disk_path w).0 ≡ ok tt
  pub open_empties : (w : h.World) → content (h.open_dest h.disk_path w).1 ≡ []
  pub close_ok : (w : h.World) → (h.close_dest w).0 ≡ ok tt
  pub close_keeps : (w : h.World) → content (h.close_dest w).1 ≡ content w

fewer :
    (n k : ℕ) (bs : List ℕ)
    → leb n (length bs) ≡ true
    → length bs < suc k * n
    → length (drop n bs) < k * n
fewer n k bs e l = grind (arith, length-drop n bs)

short : (n : ℕ) (bs : List ℕ) → leb n (length bs) ≡ false → length bs < n
short n bs e = ground arith

module _ (h : DiskHost) (content : h.World → List ℕ) (law : IsAppending h content) where
  abbrev pub Copies : ℕ → ℕ → List ℕ → h.World → Type 0
  Copies n k bs w =
      let a = copy_chunks h n k (record { bytes = bs; fault = none }) w in
      (a.0 ≡ ok true) × (content a.1 ≡ content w ++ bs)

  copy_chunks-Copies :
      (n k : ℕ) (bs : List ℕ) (w : h.World) → 0 < n → length bs < k * n → Copies n k bs w
  unfolding copy_chunks
  copy_chunks-Copies n zero bs w p l = absurd (omega arith)
  copy_chunks-Copies n (suc k) bs w p l = elim (Bool-cases (leb n (length bs))) [
    | inl e ↦
        rw (copy_chunks, law.write_ok (take n bs) w, e)
          (let (a, b) =
              copy_chunks-Copies n k (drop n bs) (h.write_dest (take n bs) w).1 p
                (fewer n k bs e l) in
            (
              a,
              b
                  ∙ ap (λ c. c ++ drop n bs) (law.write_adds (take n bs) w)
                  ∙ append_assoc (content w) (take n bs) (drop n bs)
                  ∙ ap (λ c. content w ++ c) (take-append-drop n bs),
            ))
    | inr e ↦
        rw (copy_chunks, law.write_ok (take n bs) w, e)
          (
            refl,
            law.write_adds (take n bs) w ∙ ap (λ c. content w ++ c) (take-all n bs (short n bs e)),
          )
  ]

  fill_lem :
      (bs : List ℕ) (w : h.World)
      → let a = fill h (record { bytes = bs; fault = none }) w in
        (a.0 ≡ ok tt) × (content a.1 ≡ content w ++ bs)
  unfolding fill
  fill_lem bs w =
      let (a, b) =
        copy_chunks-Copies chunk_size (suc (length bs / chunk_size)) bs w (omega arith)
          (omega arith) in
      rw a (rw (law.close_ok _) (refl, law.close_keeps _ ∙ b))

  -- Where the disk is the first file of the archive and is read without a fault, and no write fails,
  -- `createDisk` ends without an error, however long the disk is, within the rounds that the model
  -- gives its loop, and leaves a file with all bytes of the disk and no others.
  pub create_disk-total :
      (f : ZipFile) (fs : List ZipFile) (bs : List ℕ) (w : h.World)
      → h.archive ≡ ok (f ∷ fs)
      → (f.name == "disk.vhdx") ≡ true
      → f.open_file ≡ ok (record { bytes = bs; fault = none })
      → let a = create_disk h w in (a.0 ≡ ok tt) × (content a.1 ≡ bs)
  unfolding create_disk unpack
  create_disk-total f fs bs w e n o =
      let w1 = (h.open_dest h.disk_path w).1 in
      let (a, b) = fill_lem bs w1 in
      rw (e, n, o, law.open_ok w) (a, b ∙ ap (λ c. c ++ bs) (law.open_empties w))

-- ===== src/Journal/Writer/Storage.antt =====
-- What the writes of a record leave in the file. `content` reads the bytes of the file off the
-- state of the world.
use baseline_ops.Prelude.{
  ℕ, suc, ◌≤◌, ◌^◌, ◌≡◌, refl, ◌∙◌, String, lt→ltb, List, ◌++◌, length, append_assoc, take,
  take_all, take-append_le, to_le_bytes, Outcome, ok, err, arith,
}
use baseline_ops.Journal.Event.{JournalError}
use baseline_ops.Journal.Frame.{Codec}
use baseline_ops.Journal.Reader.Frames.{IsFrame, frame_of}
use baseline_ops.Journal.Writer.{DurableWrite, after_io, write_record}

-- `std::io::Write`: a write that succeeds appends all its bytes, one that fails any of the first
-- ones; to flush and to synchronize changes no byte.
pub record IsStorage {W : Type 0} (file : DurableWrite W) (content : W → List ℕ) : Type 0 where
  pub appends :
      (bytes : List ℕ) (w w' : W)
      → file.write_all bytes w ≡ (ok tt, w')
      → content w' ≡ content w ++ bytes
  pub stops :
      (bytes : List ℕ) (w w' : W) (e : String)
      → file.write_all bytes w ≡ (err e, w')
      → (k : ℕ) × (k ≤ length bytes) × (content w' ≡ content w ++ take k bytes)
  pub flush_keeps : (w : W) → content (file.flush w).1 ≡ content w
  pub synchronize_keeps : (w : W) → content (file.synchronize w).1 ≡ content w

module _ {W : Type 0} (file : DurableWrite W) (content : W → List ℕ)
    (storage : IsStorage file content) where
  -- All of the bytes, or, after a failure, the first ones.
  abbrev pub Wrote : {A : Type 0} → W → List ℕ → Outcome JournalError A → W → Type 0
  Wrote w bytes (ok answer) w' = content w' ≡ content w ++ bytes
  Wrote w bytes (err e) w' = (k : ℕ) × (k ≤ length bytes) × (content w' ≡ content w ++ take k bytes)

  after_sync :
      (w : W) (bytes : List ℕ) (s : Outcome String (Unit {0}) × W)
      → content s.1 ≡ content w ++ bytes
      → (let r = after_io s (λ w'. (ok tt, w')) in Wrote w bytes r.0 r.1)
  after_sync w bytes (ok u, w') h = h
  after_sync w bytes (err e, w') h =
      (length bytes, omega arith, rw (take_all (length bytes) bytes (omega arith)) h)

  after_flush :
      (w : W) (bytes : List ℕ) (s : Outcome String (Unit {0}) × W)
      → content s.1 ≡ content w ++ bytes
      → (let r = after_io s (λ w₃. after_io (file.synchronize w₃) λ w₄. (ok tt, w₄)) in
          Wrote w bytes r.0 r.1)
  after_flush w bytes (ok u, w') h =
      after_sync w bytes (file.synchronize w') (storage.synchronize_keeps w' ∙ h)
  after_flush w bytes (err e, w') h =
      (length bytes, omega arith, rw (take_all (length bytes) bytes (omega arith)) h)

  after_bytes :
      (w w₁ : W) (bytes : List ℕ) (s : Outcome String (Unit {0}) × W)
      → content w₁ ≡ content w ++ to_le_bytes (length bytes)
      → file.write_all bytes w₁ ≡ s
      → (let r =
            after_io s λ w₂.
              after_io (file.flush w₂) λ w₃. after_io (file.synchronize w₃) λ w₄. (ok tt, w₄) in
          Wrote w (frame_of bytes) r.0 r.1)
  after_bytes w w₁ bytes (ok u, w₂) before e =
      let now : content w₂ ≡ content w ++ frame_of bytes =
        rw (storage.appends bytes w₁ w₂ e, before)
          (append_assoc (content w) (to_le_bytes (length bytes)) bytes) in
      after_flush w (frame_of bytes) (file.flush w₂) (storage.flush_keeps w₂ ∙ now)
  after_bytes w w₁ bytes (err failure, w₂) before e =
      let (k, le, now) = storage.stops bytes w₁ w₂ failure e in
      (
        suc (suc (suc (suc k))),
        omega (arith, le),
        rw (now, before) (append_assoc (content w) (to_le_bytes (length bytes)) (take k bytes)),
      )

  after_prefix :
      (w : W) (bytes : List ℕ) (s : Outcome String (Unit {0}) × W)
      → file.write_all (to_le_bytes (length bytes)) w ≡ s
      → (let r = after_io s λ w₁.
            after_io (file.write_all bytes w₁) λ w₂.
              after_io (file.flush w₂) λ w₃. after_io (file.synchronize w₃) λ w₄. (ok tt, w₄) in
          Wrote w (frame_of bytes) r.0 r.1)
  after_prefix w bytes (ok u, w₁) e =
      after_bytes w w₁ bytes (file.write_all bytes w₁)
        (storage.appends (to_le_bytes (length bytes)) w w₁ e) refl
  after_prefix w bytes (err failure, w₁) e =
      let (k, le, now) = storage.stops (to_le_bytes (length bytes)) w w₁ failure e in
      (k, omega (arith, le), rw (take-append_le k (to_le_bytes (length bytes)) bytes le) now)

  module _ (codec : Codec) where
    pub write_record-Wrote :
        (bytes : List ℕ) (w : W)
        → IsFrame bytes
        → (let r = write_record codec file bytes w in Wrote w (frame_of bytes) r.0 r.1)
    unfolding write_record
    write_record-Wrote bytes w (_, few) =
        rw (lt→ltb (length bytes) (2 ^ 32) (omega (arith, few)))
          (after_prefix w bytes (file.write_all (to_le_bytes (length bytes)) w) refl)

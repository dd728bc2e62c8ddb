-- ===== src/Downloads/Fetcher/Transfer.antt =====
-- The body of a response in downloads/fetcher.ts: the counting `Transform`, the progress reports
-- and the stall timer, over the chunks and the timer's ticks in the order in which they happen.
use circleftp_jellyfin.Base.{
  ℕ, ◌+◌, ◌-◌, ◌≡◌, refl, List, [], ◌∷◌, ◌++◌, Option, Bool, true, false, arith, if◌then◌else◌, ltb,
  length, append_assoc, ◌∙◌, Bool-cases, inl, inr,
}
use circleftp_jellyfin.Downloads.Disk.{Bytes}

-- A chunk with the time of its arrival, or the stall timer's tick.
pub data Tick : Type 0 where
  chunk : Bytes → ℕ → Tick
  check : ℕ → Tick

-- A call of `onProgress`, with its time.
pub record Report : Type 0 where
  pub at : ℕ
  pub bytes_on_disk : ℕ
  pub total_bytes : Option ℕ

pub record Progress : Type 0 where
  pub received : Bytes
  pub last_byte_at : ℕ
  pub last_report : ℕ
  pub reports : List Report

pub record Loop : Type 0 where
  pub progress : Progress
  pub is_stalled : Bool

abbrev pub start : ℕ → Progress
start now = record { received = []; last_byte_at = now; last_report = 0; reports = [] }

-- The `transform` callback.
unfoldable pub count_chunk : Option ℕ → ℕ → Bytes → ℕ → Progress → Progress
count_chunk total resume_from bytes now p =
    let received = p.received ++ bytes in
    if ltb 500 (now - p.last_report)
    then record {
      received = received;
      last_byte_at = now;
      last_report = now;
      reports =
          p.reports
          ++ record { at = now; bytes_on_disk = resume_from + length received; total_bytes = total }
            ∷ [];
    }
    else record p { received = received; last_byte_at = now }

unfoldable pub transfer : ℕ → Option ℕ → ℕ → List Tick → Progress → Loop
unfolding count_chunk
transfer timeout total resume_from [] p = record { progress = p; is_stalled = false }
transfer timeout total resume_from (chunk bytes now ∷ ticks) p =
    transfer timeout total resume_from ticks (count_chunk total resume_from bytes now p)
transfer timeout total resume_from (check now ∷ ticks) p =
    let rest = transfer timeout total resume_from ticks p in
    if ltb timeout (now - p.last_byte_at) then record { progress = p; is_stalled = true } else rest

-- All that the host sends in the body.
abbrev pub sent : List Tick → Bytes
sent [] = []
sent (chunk bytes now ∷ ticks) = bytes ++ sent ticks
sent (check now ∷ ticks) = sent ticks

count_chunk-received :
    (total : Option ℕ) (n : ℕ) (bytes : Bytes) (now : ℕ) (p : Progress)
    → (count_chunk total n bytes now p).received ≡ p.received ++ bytes
unfolding count_chunk
count_chunk-received total n bytes now p = ground arith

-- What has been received is a part of what was sent, and all of it if the transfer did not stall.
pub transfer-received :
    (timeout : ℕ) (total : Option ℕ) (n : ℕ) (ticks : List Tick) (p : Progress)
    → (rest : Bytes) × ((transfer timeout total n ticks p).progress.received ++ rest
        ≡ p.received ++ sent ticks)
      × ((transfer timeout total n ticks p).is_stalled ≡ false → rest ≡ [])
unfolding transfer
transfer-received timeout total n [] p = ([], refl, λ _. refl)
transfer-received timeout total n (chunk bytes now ∷ ticks) p =
    let (rest, e, h) = transfer-received timeout total n ticks (count_chunk total n bytes now p) in
    (
      rest,
      e
          ∙ rw (count_chunk-received total n bytes now p)
              (append_assoc p.received bytes (sent ticks)),
      h,
    )
transfer-received timeout total n (check now ∷ ticks) p =
    elim (Bool-cases (ltb timeout (now - p.last_byte_at))) [
      | inl e ↦ (sent ticks, rw e, rw e (λ h. cc))
      | inr e ↦ rw e (transfer-received timeout total n ticks p)
    ]

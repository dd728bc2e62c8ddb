-- ===== src/Downloads/Fetcher/Kept.antt =====
-- What stays on the disk after a body of downloads/fetcher.ts has been received, whole or in part.
use circleftp_jellyfin.Base.{
  ℕ, ◌+◌, ◌<◌, ◌≡◌, ◌≢◌, refl, sym, ap, subst, ◌∙◌, List, ◌++◌, Option, none, some, Bool, false,
  arith, length, length-append, append_assoc, take, ltb, Bool-cases, Option-cases, eq_of_some, inl,
  inr, ◌⊎◌, append-nil,
}
use circleftp_jellyfin.Base.Text.{Text}
use circleftp_jellyfin.Downloads.Disk.{
  Bytes, Disk, put, put_self, put_ne, rename_missing, rename_present,
}
use circleftp_jellyfin.Downloads.Paths.{part_path_for, part_suffix}
use circleftp_jellyfin.Downloads.Fetcher.{
  Finish, ended, broken, aborted, Outcome, fetched, cancelled, stalled, failed, Fetch, finish_file,
  complete, settle,
}
use circleftp_jellyfin.Downloads.Fetcher.Transfer.{
  Tick, sent, transfer, transfer-received, start, Report, Loop,
}
use circleftp_jellyfin.Downloads.Fetcher.Serving.{IsPrefix, eq_of_IsPrefix, append_take-IsPrefix}

pub part-ne : (d : Text) → part_path_for d ≢ d
part-ne d e = absurd (omega (arith, length-append d part_suffix, ap length e))

-- What is on the disk for one file: the partial is a prefix of the content, and a final file that
-- is not empty is the content if its size is one to be trusted.
pub record IsSafe (content : Bytes) (destination : Text) (Trusted : ℕ → Type 0) (disk : Disk)
    : Type 0 where
  pub part : (b : Bytes) → disk (part_path_for destination) ≡ some b → IsPrefix b content
  pub final :
      (b : Bytes) → disk destination ≡ some b → 0 < length b → Trusted (length b) → b ≡ content

-- What a fetch leaves behind.
pub record IsSound (content : Bytes) (destination : Text) (Trusted : ℕ → Type 0) (before : Disk)
    (f : Fetch) : Type 0 where
  pub safe : IsSafe content destination Trusted f.disk
  pub done :
      (n : ℕ) (skipped : Bool)
      → f.outcome ≡ fetched n skipped
      → (f.disk destination ≡ some content) × (n ≡ length content)
  pub others : (q : Text) → q ≢ destination → q ≢ part_path_for destination → f.disk q ≡ before q

module _ (content : Bytes) (destination : Text) (Trusted : ℕ → Type 0) where
  -- Writing a prefix of the content to the partial file, or removing it.
  pub put_part-IsSafe :
      (disk : Disk) (c : Option Bytes)
      → IsSafe content destination Trusted disk
      → ((b : Bytes) → c ≡ some b → IsPrefix b content)
      → IsSafe content destination Trusted (put disk (part_path_for destination) c)
  put_part-IsSafe disk c s h = record {
    part = λ b e. h b (sym (put_self disk (part_path_for destination) c) ∙ e);
    final = λ b e. s.final b (sym (put_ne disk _ destination c (part-ne destination)) ∙ e);
  }

  pub put_final-IsSafe :
      (disk : Disk)
      → IsSafe content destination Trusted disk
      → IsSafe content destination Trusted (put disk destination none)
  put_final-IsSafe disk s = record {
    part = λ b e.
        s.part b (sym (put_ne disk destination _ none (λ h. part-ne destination (sym h))) ∙ e);
    final = λ b e. cc (put_self disk destination none, e);
  }

  -- After the rename the file is what the partial was, and the partial is gone.
  pub finish_file-IsSound :
      (disk : Disk) (k : ℕ) (reports : List Report)
      → IsSafe content destination Trusted disk
      → ((b : Bytes)
          → disk (part_path_for destination) ≡ some b
          → (b ≡ content) × (k ≡ length content))
      → IsSound content destination Trusted disk
          (finish_file destination disk (fetched k false) reports)
  unfolding finish_file
  finish_file-IsSound disk k reports s full = elim (Option-cases (disk part)) [
    | inl e ↦
        rw (rename_missing disk part destination e, finish_file)
          (record { safe = s; done = λ n skipped h. cc; others = λ q _ _. refl })
    | inr (b, e) ↦
        let whole : b ≡ content = (full b e).0 in
        let moved = put disk destination (some b) in
        let there : put moved part none destination ≡ some b =
          put_ne moved part destination none (part-ne destination)
          ∙ put_self disk destination (some b) in
        rw (rename_present disk part destination e, finish_file)
          (record {
            safe = record {
              part = λ b' h. cc (put_self moved part none, h);
              final = λ b' h _ _. cc (there, whole, h);
            };
            done = λ n skipped h. (there ∙ ap some whole, cc ((full b e).1, h));
            others = λ q q-ne-d q-ne-p.
                put_ne moved part q none (λ h. q-ne-p (sym h))
                ∙ put_ne disk destination q (some b) (λ h. q-ne-d (sym h));
          })
  ]
    where
      part : Text
      part = part_path_for destination

  -- The rename happens only for a file that is not shorter than announced.
  complete-IsSound :
      (disk : Disk) (b : Bytes) (written now : ℕ) (reports : List Report)
      → IsSafe content destination Trusted disk
      → disk (part_path_for destination) ≡ some b
      → written ≡ length b
      → IsSound content destination Trusted disk
          (complete destination disk (some (length content)) written now reports)
  unfolding complete
  complete-IsSound disk b written now reports s e w =
      elim (Bool-cases (ltb written (length content))) [
        | inl short ↦
            rw short (record { safe = s; done = λ n skipped h. cc; others = λ q _ _. refl })
        | inr long ↦ rw long (finish_file-IsSound disk written _ s (full long))
      ]
    where
      full :
          ltb written (length content) ≡ false
          → (b' : Bytes) → disk (part_path_for destination) ≡ some b'
          → (b' ≡ content) × (written ≡ length content)
      full long b' h =
          let same : b' ≡ b = ground arith in
          let whole : b' ≡ content =
            eq_of_IsPrefix b' content (s.part b' h) (ground (arith, ap length same)) in
          (whole, omega (arith, ap length whole, ap length same))

  -- A sound fetch from a disk that differs in the partial file alone.
  pub IsSound-weaken :
      (disk : Disk) (c : Option Bytes) (f : Fetch)
      → IsSound content destination Trusted (put disk (part_path_for destination) c) f
      → IsSound content destination Trusted disk f
  IsSound-weaken disk c f s = record {
    safe = s.safe;
    done = s.done;
    others = λ q q-ne-d q-ne-p.
        s.others q q-ne-d q-ne-p
        ∙ put_ne disk (part_path_for destination) q c (λ h. q-ne-p (sym h));
  }

  -- What a fetch that fails has kept is sound.
  kept-IsSound :
      (disk : Disk) (c : Option Bytes) (o : Outcome) (reports : List Report)
      → IsSafe content destination Trusted disk
      → ((b : Bytes) → c ≡ some b → IsPrefix b content)
      → ((n : ℕ) (skipped : Bool) → o ≢ fetched n skipped)
      → IsSound content destination Trusted disk
          (record { outcome = o; disk = put disk (part_path_for destination) c; reports = reports })
  kept-IsSound disk c o reports s h k = IsSound-weaken disk c _ (record {
    safe = put_part-IsSafe disk c s h;
    done = λ n skipped e. absurd (k n skipped e);
    others = λ q _ _. refl;
  })

  -- A body with no announced length that has come to its end is renamed as it is.
  unannounced-IsSound :
      (disk : Disk) (b : Bytes) (written now : ℕ) (reports : List Report)
      → IsSafe content destination Trusted disk
      → disk (part_path_for destination) ≡ some b
      → written ≡ length b
      → b ≡ content
      → IsSound content destination Trusted disk
          (complete destination disk none written now reports)
  unfolding complete
  unannounced-IsSound disk b written now reports s e w whole =
      finish_file-IsSound disk written _ s
        (λ b' h. let same : b' ≡ b = ground arith in (same ∙ whole, w ∙ ap length whole))

  -- The end of the stream, where the whole length is announced or the body that has ended is whole.
  pub settle-IsSound :
      (disk : Disk) (base : Bytes) (total : Option ℕ) (n : ℕ) (finish : Finish)
      (ended_at flushed : ℕ) (loop : Loop)
      → IsSafe content destination Trusted disk
      → length base ≡ n
      → IsPrefix (base ++ loop.progress.received) content
      → (total ≡ some (length content))
        ⊎ ((total ≡ none)
            × (loop.is_stalled ≡ false → finish ≡ ended → base ++ loop.progress.received ≡ content))
      → IsSound content destination Trusted disk
          (settle destination disk base total n finish ended_at flushed loop)
  unfolding settle
  settle-IsSound disk base total n finish ended_at flushed loop s len p announced =
      elim (Bool-cases loop.is_stalled) [
        | inl e ↦ rw e (kept-IsSound disk (some kept) stalled _ s kept-IsPrefix (λ n sk h. cc))
        | inr e ↦ rw e (by_finish e finish refl)
      ]
    where
      body : Bytes
      body = loop.progress.received

      kept : Bytes
      kept = base ++ take flushed body

      kept-IsPrefix : (b : Bytes) → some kept ≡ some b → IsPrefix b content
      kept-IsPrefix b e =
          subst (λ l. IsPrefix l content) (eq_of_some e)
            (append_take-IsPrefix base body content flushed p)

      saved-IsPrefix : (b : Bytes) → some (base ++ body) ≡ some b → IsPrefix b content
      saved-IsPrefix b e = subst (λ l. IsPrefix l content) (eq_of_some e) p

      saved : Disk
      saved = put disk (part_path_for destination) (some (base ++ body))

      completed :
          loop.is_stalled ≡ false
          → finish ≡ ended
          → IsSound content destination Trusted saved
              (complete destination saved total (n + length body) ended_at loop.progress.reports)
      completed unstalled e = elim announced [
        | inl k ↦ rw k (
            complete-IsSound _ (base ++ body) _ ended_at _
              (put_part-IsSafe disk (some (base ++ body)) s saved-IsPrefix)
              (put_self disk (part_path_for destination) (some (base ++ body)))
              (omega (arith, length-append base body)))
        | inr (k, whole) ↦ rw k (
            unannounced-IsSound _ (base ++ body) _ ended_at _
              (put_part-IsSafe disk (some (base ++ body)) s saved-IsPrefix)
              (put_self disk (part_path_for destination) (some (base ++ body)))
              (omega (arith, length-append base body)) (whole unstalled e))
      ]

      by_finish :
          loop.is_stalled ≡ false
          → (x : Finish) → finish ≡ x
          → IsSound content destination Trusted disk (elim x [
            | broken ↦ record {
              outcome = failed;
              disk = put disk (part_path_for destination) (some kept);
              reports = loop.progress.reports;
            }
            | aborted ↦ record {
              outcome = cancelled;
              disk = put disk (part_path_for destination) (some kept);
              reports = loop.progress.reports;
            }
            | ended ↦
                complete destination saved total (n + length body) ended_at loop.progress.reports
          ])
      by_finish u broken e = kept-IsSound disk (some kept) failed _ s kept-IsPrefix (λ n sk h. cc)
      by_finish u aborted e =
          kept-IsSound disk (some kept) cancelled _ s kept-IsPrefix (λ n sk h. cc)
      by_finish u ended e = IsSound-weaken disk (some (base ++ body)) _ (completed u e)

-- What has been received goes on from the base as the content does.
pub received-IsPrefix :
    (content base : Bytes) (timeout : ℕ) (total : Option ℕ) (n now : ℕ) (ticks : List Tick)
    → IsPrefix (base ++ sent ticks) content
    → IsPrefix (base ++ (transfer timeout total n ticks (start now)).progress.received) content
received-IsPrefix content base timeout total n now ticks (z, e) =
    let (rest, q, _) = transfer-received timeout total n ticks (start now) in
    (
      rest ++ z,
      sym (append_assoc _ rest z)
          ∙ ap (λ l. l ++ z) (append_assoc base _ rest ∙ ap (◌++◌ base) q)
          ∙ e,
    )

-- A transfer that has not stalled has received all that was sent.
pub received-whole :
    (timeout : ℕ) (total : Option ℕ) (n now : ℕ) (ticks : List Tick)
    → (transfer timeout total n ticks (start now)).is_stalled ≡ false
    → (transfer timeout total n ticks (start now)).progress.received ≡ sent ticks
received-whole timeout total n now ticks h =
    let (rest, q, all_sent) = transfer-received timeout total n ticks (start now) in
    let received = (transfer timeout total n ticks (start now)).progress.received in
    sym (append-nil received) ∙ ap (◌++◌ received) (sym (all_sent h)) ∙ q

-- ===== src/Downloads/Fetcher/Laws.antt =====
-- A fetch from an honest host: the partial file stays a prefix of the content, and a file that is
-- reported as fetched is the content.
use circleftp_jellyfin.Base.{
  ℕ, ◌≡◌, refl, sym, ap, subst, ◌∙◌, [], ◌++◌, Option, none, some, Bool, true, arith, length, drop,
  if◌then◌else◌, ltb, ◌==◌, Bool-cases, Option-cases, ==_iff, inl, inr, ◌⊎◌,
}
use circleftp_jellyfin.Base.Text.{Text}
use circleftp_jellyfin.Downloads.Disk.{
  Bytes, content_of, Disk, file_size, put, put_ne, size_of_lem, file_size_present,
  file_size_missing,
}
use circleftp_jellyfin.Downloads.Paths.{part_path_for}
use circleftp_jellyfin.Downloads.Fetcher.{
  ended, Response, Reply, response, unreachable, request_aborted, fetched, failed, aborted_request,
  Options, without_reports, receive, handle_response, request_file, fetch_file, is_expected,
}
use circleftp_jellyfin.Downloads.Fetcher.Headers.{total_from_headers}
use circleftp_jellyfin.Downloads.Fetcher.Transfer.{sent}
use circleftp_jellyfin.Downloads.Fetcher.Serving.{
  IsPrefix, eq_of_IsPrefix, append-IsPrefix, append_drop_of_IsPrefix, offset, Honest,
}
use circleftp_jellyfin.Downloads.Fetcher.Kept.{
  IsSafe, IsSound, put_part-IsSafe, put_final-IsSafe, finish_file-IsSound, settle-IsSound,
  received-whole, received-IsPrefix, IsSound-weaken,
}

-- The host's reply to the request for what is missing of the partial file is an honest one.
abbrev pub IsHonest : Bytes → Option ℕ → Reply → Type 0
IsHonest content range unreachable = Unit
IsHonest content range request_aborted = Unit
IsHonest content range (response r) =
    Honest content range r.status (total_from_headers r.content_range r.content_length) r.ticks
      r.finish

module _ (content : Bytes) (o : Options) (Trusted : ℕ → Type 0) where
  receive-IsSound :
      (disk : Disk) (n : ℕ) (r : Response)
      → IsSafe content o.destination Trusted disk
      → (base : Bytes)
      → (if ltb 0 n then content_of (disk (part_path_for o.destination)) else []) ≡ base
      → length base ≡ n
      → IsPrefix (base ++ sent r.ticks) content
      → (total_from_headers r.content_range r.content_length n ≡ some (length content))
        ⊎ ((total_from_headers r.content_range r.content_length n ≡ none)
            × (r.finish ≡ ended → base ++ sent r.ticks ≡ content))
      → IsSound content o.destination Trusted disk (receive o disk n r)
  unfolding receive
  receive-IsSound disk n r s base b len p announced =
      let total = total_from_headers r.content_range r.content_length n in
      rw b (
        settle-IsSound content o.destination Trusted disk base total n r.finish r.ended_at r.flushed
          _ s len (received-IsPrefix content base o.stall_timeout _ n r.started_at r.ticks p)
          (elim announced [
            | inl k ↦ inl k
            | inr (k, whole) ↦ inr (
              k,
              λ unstalled e.
                  ap (◌++◌ base) (received-whole o.stall_timeout _ n r.started_at r.ticks unstalled)
                  ∙ whole e,
            )
          ]))

  abbrev range_of : ℕ → Option ℕ
  range_of n = if ltb 0 n then some n else none

  abbrev base_of : Disk → ℕ → Bytes
  base_of disk n = if ltb 0 n then content_of (disk (part_path_for o.destination)) else []

  offset_lem : (n : ℕ) → offset (range_of n) ≡ n
  offset_lem n = ground arith

  part_content :
      (disk : Disk)
      → IsSafe content o.destination Trusted disk
      → IsPrefix (content_of (disk (part_path_for o.destination))) content
  part_content disk s = elim (Option-cases (disk (part_path_for o.destination))) [
    | inl e ↦ rw e (content, refl)
    | inr (b, e) ↦ rw e (s.part b e)
  ]

  -- The stream is opened behind a prefix of the content, of the length asked for.
  base_of-IsPrefix :
      (disk : Disk) (n : ℕ)
      → IsSafe content o.destination Trusted disk
      → n ≡ file_size disk (part_path_for o.destination)
      → (length (base_of disk n) ≡ n) × IsPrefix (base_of disk n) content
  unfolding file_size
  base_of-IsPrefix disk n s size = elim (Bool-cases (ltb 0 n)) [
    | inl e ↦
        rw e (sym (size ∙ size_of_lem (disk (part_path_for o.destination))), part_content disk s)
    | inr e ↦ rw e (ground arith, (content, refl))
  ]

  handle_response-IsSound :
      (disk : Disk) (n : ℕ) (r : Response)
      → IsSafe content o.destination Trusted disk
      → n ≡ file_size disk (part_path_for o.destination)
      → Honest content
          (range_of n)
          r.status
          (total_from_headers r.content_range r.content_length)
          r.ticks
          r.finish
      → IsSound content o.destination Trusted disk (handle_response o disk n r)
  unfolding handle_response
  handle_response-IsSound disk n r s size h = elim (Bool-cases (r.status == 416)) [
    | inl e ↦ rw e (finish_file-IsSound content o.destination Trusted disk n [] s (whole_part e))
    | inr ne416 ↦ elim (Bool-cases (r.status == 200)) [
      | inl e ↦ elim (Bool-cases (ltb 0 n)) [
        | inl some_part ↦ rw (ne416, e, some_part) (restarted e)
        | inr no_part ↦ rw (ne416, e, no_part) (from_zero e (ground arith))
      ]
      | inr ne200 ↦ elim (Bool-cases (r.status == 206)) [
        | inl e ↦ rw (ne416, ne200, e) (resumed e)
        | inr ne206 ↦
            rw (ne416, ne200, ne206)
              (record { safe = s; done = λ n skipped e. cc; others = λ q _ _. refl })
      ]
    ]
  ]
    where
      part : Text
      part = part_path_for o.destination

      whole_part :
          (r.status == 416) ≡ true
          → (b : Bytes) → disk part ≡ some b
          → (b ≡ content) × (n ≡ length content)
      whole_part e b there =
          let len : n ≡ length b = size ∙ file_size_present disk part there in
          let same : b ≡ content =
            eq_of_IsPrefix b content (s.part b there)
              (omega (arith, h.unsatisfiable ((==_iff _ _).0 e), offset_lem n)) in
          (same, len ∙ ap length same)

      restarted :
          (r.status == 200) ≡ true
          → IsSound content o.destination Trusted disk (receive o (put disk part none) 0 r)
      restarted e =
          let w = h.whole ((==_iff _ _).0 e) in
          IsSound-weaken content o.destination Trusted disk none _ (
            receive-IsSound (put disk part none) 0 r
              (put_part-IsSafe content o.destination Trusted disk none s (λ b k. cc)) [] refl refl
              w.0 w.1)

      from_zero :
          (r.status == 200) ≡ true
          → n ≡ 0
          → IsSound content o.destination Trusted disk (receive o disk n r)
      from_zero e z =
          let w = h.whole ((==_iff _ _).0 e) in
          rw z (receive-IsSound disk 0 r s [] refl refl w.0 w.1)

      resumed :
          (r.status == 206) ≡ true → IsSound content o.destination Trusted disk (receive o disk n r)
      resumed e =
          let (more, delimited) = h.partial ((==_iff _ _).0 e) in
          let (len, base) = base_of-IsPrefix disk n s size in
          let at_n : offset (range_of n) ≡ length (base_of disk n) = offset_lem n ∙ sym len in
          let total = total_from_headers r.content_range r.content_length in
          receive-IsSound disk n r s (base_of disk n) refl len
            (append-IsPrefix (base_of disk n) (sent r.ticks) content base
              (subst (λ k. IsPrefix (sent r.ticks) (drop k content)) at_n more))
            (elim delimited [
              | inl k ↦ inl (ap total (sym (offset_lem n)) ∙ k)
              | inr (k, rest) ↦ inr (
                ap total (sym (offset_lem n)) ∙ k,
                λ f.
                    ap (◌++◌ (base_of disk n)) (rest f ∙ ap (λ m. drop m content) at_n)
                    ∙ append_drop_of_IsPrefix (base_of disk n) content base,
              )
            ])

  request_file-IsSound :
      (disk : Disk) (host : Option ℕ → Reply)
      → IsSafe content o.destination Trusted disk
      → ((range : Option ℕ) → IsHonest content range (host range))
      → IsSound content o.destination Trusted disk (request_file o disk host)
  unfolding request_file
  request_file-IsSound disk host s honest =
      by_reply (host (range_of (file_size disk (part_path_for o.destination)))) (honest _)
    where
      n : ℕ
      n = file_size disk (part_path_for o.destination)

      by_reply :
          (reply : Reply)
          → IsHonest content (range_of n) reply
          → IsSound content o.destination Trusted disk (elim reply [
            | unreachable ↦ without_reports failed disk
            | request_aborted ↦ without_reports aborted_request disk
            | response r ↦ handle_response o disk n r
          ])
      by_reply unreachable h = record { safe = s; done = λ n skipped e. cc; others = λ q _ _. refl }
      by_reply request_aborted h = record {
        safe = s;
        done = λ n skipped e. cc;
        others = λ q _ _. refl;
      }
      by_reply (response r) h = handle_response-IsSound disk n r s refl h

  -- A fetch from a host that serves one content honestly, whose bodies with no announced length end
  -- only where they are whole, onto a disk whose partial file is a prefix of the content and whose final
  -- file, if it has a size that the fetch expects or any size where none is known, is the content:
  -- whatever arrives, stalls or breaks off, the partial file stays a prefix of the content, a file that
  -- is reported as fetched is exactly the content with its length, and no other file changes.
  pub fetch_file-IsSound :
      (disk : Disk) (host : Option ℕ → Reply)
      → ((n : ℕ) → is_expected o.expected_size n ≡ true → Trusted n)
      → IsSafe content o.destination Trusted disk
      → ((range : Option ℕ) → IsHonest content range (host range))
      → IsSound content o.destination Trusted disk (fetch_file o disk host)
  unfolding fetch_file
  fetch_file-IsSound disk host expected s honest = elim (Bool-cases (ltb 0 size)) [
    | inl e ↦ elim (Bool-cases (is_expected o.expected_size size)) [
      | inl k ↦ rw (e, k) (record { safe = s; done = kept e k; others = λ q _ _. refl })
      | inr k ↦ rw (e, k) refetched
    ]
    | inr e ↦ rw e (request_file-IsSound disk host s honest)
  ]
    where
      size : ℕ
      size = file_size disk o.destination

      kept :
          ltb 0 size ≡ true
          → is_expected o.expected_size size ≡ true
          → (n : ℕ) (skipped : Bool) → fetched size true ≡ fetched n skipped
          → (disk o.destination ≡ some content) × (n ≡ length content)
      kept e trust n skipped k = elim (Option-cases (disk o.destination)) [
        | inl gone ↦ cc (file_size_missing disk o.destination gone, e)
        | inr (b, there) ↦
            let len : size ≡ length b = file_size_present disk o.destination there in
            let whole : b ≡ content =
              s.final b there (ground arith) (subst Trusted len (expected size trust)) in
            (cc, ground (arith, ap length whole))
      ]

      refetched :
          IsSound content o.destination Trusted disk
            (request_file o (put disk o.destination none) host)
      refetched =
          let f =
            request_file-IsSound (put disk o.destination none) host
              (put_final-IsSafe content o.destination Trusted disk s) honest in
          record {
            safe = f.safe;
            done = f.done;
            others = λ q d p. f.others q d p ∙ put_ne disk o.destination q none (λ k. d (sym k));
          }

-- ===== src/Gateway/Relay.antt =====
-- What `streamProxy` of internal/gateway/stream.go passes on, and what becomes of an upstream's answer
-- in internal/gateway/handler.go.
use velocity_gateway.Common.{
  ◌≡◌, refl, sym, ap, ◌∙◌, subst, Bool, true, false, Text, List, [], ◌∷◌, ◌++◌, Option, if_cases,
  All,
}
use mathlib.Core.List.{append-nil, append_assoc}
use velocity_gateway.Gateway.Text.{strip_prefix}
use velocity_gateway.Gateway.Stream.{
  Read, After, more, eof, broken, Streamed, line_text, delta, copy, go_on, stream_proxy, is_blank,
}

unfoldable pub joined : {A : Type 0} → (A → Text) → List A → Text
joined f [] = []
joined f (r ∷ rs) = f r ++ joined f rs

-- The lines of a first part of the stream were sent, and the content is their text.
pub record IsPart (delta_of : Text → Option Text) (reads : List Read) (content sent : Text)
    (s : Streamed) : Type 0 where
  pub front : List Read
  pub back : List Read
  pub parts : reads ≡ front ++ back
  pub bytes : s.sent ≡ sent ++ joined (λ r. r.line) front
  pub text : s.content ≡ content ++ joined (λ r. line_text delta_of r.line) front

-- A round that reads a line, writes it and goes on.
abbrev pub GoesOn : Read → Type 0
GoesOn r = (r.cancelled ≡ false) × (r.written ≡ true) × (r.after ≡ more)

is_blank-eq : (t : Text) → is_blank t ≡ true → t ≡ []
is_blank-eq [] h = refl
is_blank-eq (c ∷ cs) h = cc

module _ (delta_of : Text → Option Text) where
  nothing_more :
      (reads : List Read) (content sent : Text) (complete : Bool)
      → IsPart delta_of reads content sent
          (record { content = content; sent = sent; complete = complete })
  unfolding joined
  nothing_more reads content sent complete = record {
    front = [];
    back = reads;
    parts = refl;
    bytes = sym (append-nil sent);
    text = sym (append-nil content);
  }

  one_more :
      (r : Read) (rs : List Read) (content sent : Text) (s : Streamed)
      → IsPart delta_of rs (content ++ line_text delta_of r.line) (sent ++ r.line) s
      → IsPart delta_of (r ∷ rs) content sent s
  unfolding joined
  one_more r rs content sent s h = record {
    front = r ∷ h.front;
    back = h.back;
    parts = ap (λ l. r ∷ l) h.parts;
    bytes = h.bytes ∙ append_assoc sent r.line (joined (λ x. x.line) h.front);
    text =
        h.text
        ∙ append_assoc content (line_text delta_of r.line)
            (joined (λ x. line_text delta_of x.line) h.front);
  }

  -- A blank line adds nothing.
  blank_line :
      (r : Read) (content : Text)
      → is_blank r.line ≡ true
      → content ++ line_text delta_of r.line ≡ content
  unfolding line_text delta strip_prefix
  blank_line r content h =
      ap (λ l. content ++ line_text delta_of l) (is_blank-eq r.line h) ∙ append-nil content

  blank_bytes : (r : Read) (sent : Text) → is_blank r.line ≡ true → sent ++ r.line ≡ sent
  blank_bytes r sent h = ap (λ l. sent ++ l) (is_blank-eq r.line h) ∙ append-nil sent

  one_blank :
      (r : Read) (rs : List Read) (content sent : Text) (s : Streamed)
      → is_blank r.line ≡ true
      → IsPart delta_of rs content sent s
      → IsPart delta_of (r ∷ rs) content sent s
  one_blank r rs content sent s b h = one_more r rs content sent s (
      subst (λ c. IsPart delta_of rs c (sent ++ r.line) s) (sym (blank_line r content b))
        (subst (λ x. IsPart delta_of rs content x s) (sym (blank_bytes r sent b)) h))

  go_on-IsPart :
      (after : After) (reads : List Read) (rest : Streamed) (content sent content' sent' : Text)
      → IsPart delta_of reads content sent rest
      → ((complete : Bool)
          → IsPart delta_of reads content sent
              (record { content = content'; sent = sent'; complete = complete }))
      → IsPart delta_of reads content sent (go_on after rest content' sent')
  unfolding go_on
  go_on-IsPart more reads rest content sent content' sent' h k = h
  go_on-IsPart eof reads rest content sent content' sent' h k = k true
  go_on-IsPart broken reads rest content sent content' sent' h k = k false

  copy-IsPart :
      (reads : List Read) (content sent : Text)
      → IsPart delta_of reads content sent (copy delta_of reads content sent)
  unfolding copy
  copy-IsPart [] content sent = nothing_more [] content sent true
  copy-IsPart (r ∷ rs) content sent =
      let content' = content ++ line_text delta_of r.line in
      let sent' = sent ++ r.line in
      if_cases (λ s. IsPart delta_of (r ∷ rs) content sent s) r.cancelled
        (λ _. nothing_more (r ∷ rs) content sent false)
        (λ _.
          if_cases (λ s. IsPart delta_of (r ∷ rs) content sent s) (is_blank r.line)
            (λ b.
              go_on-IsPart r.after (r ∷ rs) (copy delta_of rs content sent) content sent content
                sent
                (one_blank r rs content sent (copy delta_of rs content sent) b
                  (copy-IsPart rs content sent))
                (nothing_more (r ∷ rs) content sent))
            (λ _.
              if_cases (λ s. IsPart delta_of (r ∷ rs) content sent s) r.written
                (λ _.
                  go_on-IsPart r.after (r ∷ rs) (copy delta_of rs content' sent') content sent
                    content' sent'
                    (one_more r rs content sent (copy delta_of rs content' sent')
                      (copy-IsPart rs content' sent'))
                    (λ complete.
                      one_more r rs content sent
                        (record { content = content'; sent = sent'; complete = complete })
                        (nothing_more rs content' sent' complete)))
                (λ _. nothing_more (r ∷ rs) content sent false)))

  copy-cons :
      (r : Read) (rs : List Read) (content sent : Text)
      → GoesOn r
      → copy delta_of (r ∷ rs) content sent
        ≡ copy delta_of rs (content ++ line_text delta_of r.line) (sent ++ r.line)
  unfolding copy go_on
  copy-cons r rs content sent (live, written, on) =
      let content' = content ++ line_text delta_of r.line in
      let sent' = sent ++ r.line in
      let next = copy delta_of rs content' sent' in
      if_cases (λ s. s ≡ next) r.cancelled (λ gone. cc)
        (λ _.
          if_cases (λ s. s ≡ next) (is_blank r.line)
            (λ b.
              ap (λ a. go_on a (copy delta_of rs content sent) content sent) on
              ∙ ap (λ c. copy delta_of rs c sent) (sym (blank_line r content b))
              ∙ ap (λ x. copy delta_of rs content' x) (sym (blank_bytes r sent b)))
            (λ _.
              if_cases (λ s. s ≡ next) r.written (λ _. ap (λ a. go_on a next content' sent') on)
                (λ failed. cc)))

  copy-All :
      (reads : List Read) (content sent : Text)
      → All GoesOn reads
      → copy delta_of reads content sent ≡ record {
        content = content ++ joined (λ r. line_text delta_of r.line) reads;
        sent = sent ++ joined (λ r. r.line) reads;
        complete = true;
      }
  unfolding copy joined
  copy-All [] content sent h =
      ap (λ c. record { content = c; sent = sent; complete = true }) (sym (append-nil content))
      ∙ ap (λ x. record { content = content ++ []; sent = x; complete = true })
          (sym (append-nil sent))
  copy-All (r ∷ rs) content sent (h, hs) =
      let text = joined (λ x. line_text delta_of x.line) rs in
      let bytes = joined (λ x. x.line) rs in
      copy-cons r rs content sent h
      ∙ copy-All rs (content ++ line_text delta_of r.line) (sent ++ r.line) hs
      ∙ ap (λ c. record { content = c; sent = (sent ++ r.line) ++ bytes; complete = true })
          (append_assoc content (line_text delta_of r.line) text)
      ∙ ap
          (λ x. record {
            content = content ++ (line_text delta_of r.line ++ text);
            sent = x;
            complete = true;
          })
          (append_assoc sent r.line bytes)

-- Whatever happens to the client, the upstream or the connection, the bytes that `streamProxy` has sent
-- are the lines of a first part of the upstream's stream, unchanged, and the content that it returns is
-- the text of the chunks of exactly these lines.
stream_proxy-IsPart :
    (delta_of : Text → Option Text) (flushes : Bool) (reads : List Read)
    → IsPart delta_of reads [] [] (stream_proxy delta_of flushes reads)
unfolding stream_proxy
stream_proxy-IsPart delta_of true reads = copy-IsPart delta_of reads [] []
stream_proxy-IsPart delta_of false reads = nothing_more delta_of reads [] [] false

-- With a writer that can flush, while the client stays, every line can be written and the upstream does not fail, `streamProxy` sends
-- all lines, unchanged, and returns the text of all chunks.
pub stream_proxy_whole :
    (delta_of : Text → Option Text) (reads : List Read)
    → All GoesOn reads
    → stream_proxy delta_of true reads ≡ record {
      content = joined (λ r. line_text delta_of r.line) reads;
      sent = joined (λ r. r.line) reads;
      complete = true;
    }
unfolding stream_proxy
stream_proxy_whole delta_of reads h = copy-All delta_of reads [] [] h

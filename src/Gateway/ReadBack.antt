-- ===== src/Gateway/ReadBack.antt =====
-- A stream of server-sent events, as internal/gateway writes it, read back by `streamProxy`.
use velocity_gateway.Common.{
  ◌≡◌, refl, sym, ap, ◌∙◌, true, false, Text, codes, text_eq, List, [], ◌∷◌, ◌++◌, map, Option,
  none, some, if◌then◌else◌, if_cases, ◌==◌, All, All-append,
}
use mathlib.Core.List.{append_assoc}
use velocity_gateway.Gateway.Text.{
  is_space, trim_left, trim_right, trim_space, strip_prefix, strip_prefix-append,
}
use velocity_gateway.Gateway.Stream.{Read, is_done, delta, line_text, stream_proxy}
use velocity_gateway.Gateway.Sse.{Chunk, frame, done_frame, read_lines, read_of, reads_of, Encodes}
use velocity_gateway.Gateway.Relay.{joined, GoesOn, stream_proxy_whole}

-- The space at the end of an object is what `TrimSpace` takes away.
trim_right_object : (fields : Text) → trim_right (fields ++ (125 ∷ 10 ∷ [])) ≡ fields ++ (125 ∷ [])
unfolding trim_right is_space
trim_right_object [] = refl
trim_right_object (c ∷ []) = refl
trim_right_object (c ∷ d ∷ cs) = rw (trim_right_object (d ∷ cs))

pub trim_object :
    (fields : Text)
    → trim_space ((123 ∷ (fields ++ (125 ∷ []))) ++ (10 ∷ [])) ≡ 123 ∷ (fields ++ (125 ∷ []))
unfolding trim_space trim_left is_space
trim_object fields =
    ap (λ t. trim_right (123 ∷ t)) (append_assoc fields (125 ∷ []) (10 ∷ []))
    ∙ trim_right_object (123 ∷ fields)

read_lines-line :
    (line x rest : Text)
    → All (λ c. (c == 10) ≡ false) x
    → read_lines line (x ++ (10 ∷ rest)) ≡ (line ++ (x ++ (10 ∷ []))) ∷ read_lines [] rest
unfolding read_lines
read_lines-line line [] rest h = refl
read_lines-line line (c ∷ cs) rest (hc, hs) =
    ap
      (λ b.
        if b
        then (line ++ (c ∷ [])) ∷ read_lines [] (cs ++ (10 ∷ rest))
        else read_lines (line ++ (c ∷ [])) (cs ++ (10 ∷ rest)))
      hc
    ∙ read_lines-line (line ++ (c ∷ [])) cs rest hs
    ∙ ap (λ t. t ∷ read_lines [] rest) (append_assoc line (c ∷ []) (cs ++ (10 ∷ [])))

-- The line of a payload.
abbrev pub data_line : Text → Text
data_line payload = codes "data: " ++ (payload ++ (10 ∷ []))

pub read_lines-frame :
    (payload rest : Text)
    → All (λ c. (c == 10) ≡ false) payload
    → read_lines [] (frame payload ++ rest) ≡ data_line payload ∷ (10 ∷ []) ∷ read_lines [] rest
unfolding frame read_lines
read_lines-frame payload rest h =
    ap (λ t. read_lines [] (codes "data: " ++ t)) (append_assoc payload (10 ∷ 10 ∷ []) rest)
    ∙ read_lines-line [] (codes "data: " ++ payload) (10 ∷ rest) (
        All-append (λ c. (c == 10) ≡ false) (codes "data: ") payload
          (refl, (refl, (refl, (refl, (refl, (refl, tt)))))) h)

delta_object :
    (delta_of : Text → Option Text) (p fields t : Text)
    → p ≡ 123 ∷ (fields ++ (125 ∷ []))
    → delta_of p ≡ some t
    → delta delta_of (some (p ++ (10 ∷ []))) ≡ t
unfolding delta text_eq
delta_object delta_of p fields t e h =
    let text_of : Option Text → Text =
      λ o. elim o as (λ _. Text) [ none ↦ [] | some text ↦ text ] in
    let trimmed : trim_space (p ++ (10 ∷ [])) ≡ p =
      ap (λ q. trim_space (q ++ (10 ∷ []))) e ∙ trim_object fields ∙ sym e in
    ap (λ q. if is_done q then [] else text_of (delta_of q)) trimmed
    ∙ ap (λ q. if is_done q then [] else text_of (delta_of p)) e
    ∙ ap text_of h

-- Chunks as events, one after the other.
unfoldable pub frames : (Chunk → Text) → List Chunk → Text
unfolding joined
frames encode = joined (λ c. frame (encode c))

module _ (encode : Chunk → Text) (delta_of : Text → Option Text)
    (laws : Encodes encode delta_of) where
  line_text-frame : (c : Chunk) → line_text delta_of (data_line (encode c)) ≡ c.content
  unfolding line_text
  line_text-frame c =
      let (fields, e) = laws.is_object c in
      ap (delta delta_of) (strip_prefix-append (codes "data: ") (encode c ++ (10 ∷ [])))
      ∙ delta_object delta_of (encode c) fields c.content e (laws.read_back c)

  abbrev text_of_read : Read → Text
  text_of_read r = line_text delta_of r.line

  done_read : joined text_of_read (reads_of done_frame) ≡ []
  unfolding joined read_lines line_text delta text_eq trim_space strip_prefix is_space trim_left
      trim_right
  done_read = refl

  -- The text of the frames' lines is the content of the chunks.
  joined-reads :
      (cs : List Chunk)
      → joined text_of_read (reads_of (frames encode cs ++ done_frame))
        ≡ joined (λ (c : Chunk). c.content) cs
  unfolding joined frames line_text delta strip_prefix
  joined-reads [] = done_read
  joined-reads (c ∷ cs) =
      let rest = frames encode cs ++ done_frame in
      ap (λ t. joined text_of_read (reads_of t))
        (append_assoc (frame (encode c)) (frames encode cs) done_frame)
      ∙ ap (λ l. joined text_of_read (map read_of l))
          (read_lines-frame (encode c) rest (laws.one_line c))
      ∙ ap (λ t. t ++ joined text_of_read (reads_of rest)) (line_text-frame c)
      ∙ ap (λ t. c.content ++ t) (joined-reads cs)

lines_joined :
    (line t : Text) → joined (λ (r : Read). r.line) (map read_of (read_lines line t)) ≡ line ++ t
unfolding joined read_lines
lines_joined [] [] = refl
lines_joined (c ∷ cs) [] = refl
lines_joined line (c ∷ cs) =
    if_cases (λ l. joined (λ (r : Read). r.line) (map read_of l) ≡ line ++ (c ∷ cs)) (c == 10)
      (λ _. ap (λ t. (line ++ (c ∷ [])) ++ t) (lines_joined [] cs) ∙ append_assoc line (c ∷ []) cs)
      (λ _. lines_joined (line ++ (c ∷ [])) cs ∙ append_assoc line (c ∷ []) cs)

all_go_on : (ls : List Text) → All GoesOn (map read_of ls)
all_go_on [] = tt
all_go_on (l ∷ ls) = ((refl, refl, refl), all_go_on ls)

-- Chunks that are sent as events, with the sentinel, are read back by `streamProxy` as the contents of
-- the chunks, and passed on unchanged.
pub stream_proxy-frames :
    (encode : Chunk → Text) (delta_of : Text → Option Text)
    → Encodes encode delta_of
    → (cs : List Chunk)
    → stream_proxy delta_of true (reads_of (frames encode cs ++ done_frame)) ≡ record {
      content = joined (λ (c : Chunk). c.content) cs;
      sent = frames encode cs ++ done_frame;
      complete = true;
    }
stream_proxy-frames encode delta_of laws cs =
    let body = frames encode cs ++ done_frame in
    stream_proxy_whole delta_of (reads_of body) (all_go_on (read_lines [] body))
    ∙ ap
        (λ t. record {
          content = t;
          sent = joined (λ (r : Read). r.line) (reads_of body);
          complete = true;
        })
        (joined-reads encode delta_of laws cs)
    ∙ ap (λ t. record { content = joined (λ (c : Chunk). c.content) cs; sent = t; complete = true })
        (lines_joined [] body)

-- ===== src/Keeper/Serving/Attached.antt =====
-- What an attached client gets, whatever the chunks are.
use devpipe.Proto.{close_frame, Frame, Op, data_op, event}
use devpipe.Proto.Messages.{PaneEvent, titled, exit, open_url, Json}
use devpipe.Marker.{Marker, Scanner, feed, new}
use devpipe.Keeper.Serving.{
  title_event, Session, attached, drained, forward, open_event, pane_event, Seen, chunk, lagged,
  closed, woken, gone,
}
use devpipe.Prelude.{
  map-append, if◌then◌else◌, false, true, append_assoc, map, ◌++◌, ◌∷◌, [], List, some, Option,
  Bool, ◌∙◌, ap, sym, refl, ◌≡◌, ℕ,
}
use devpipe.Prelude.Text.{Text}
use devpipe.Proto.Control.{json_of}
use devpipe.Marker.Chunks.{feed_chunks-concat, concat, feed_chunks}

-- The bytes of the frames that carry output.
abbrev pub output_of : Op → Frame → List ℕ
output_of data_op frame = frame.payload
output_of _ frame = []

abbrev pub output : List Frame → List ℕ
output [] = []
output (frame ∷ frames) = output_of frame.op frame ++ output frames

-- The output that the loop saw, with a screen in place of what it missed.
abbrev pub shown : List Seen → List ℕ
shown [] = []
shown (chunk bytes ∷ seen) = bytes ++ shown seen
shown (lagged screen ∷ seen) = screen ++ shown seen
shown (woken ∷ seen) = shown seen
shown (closed ∷ seen) = []
shown (gone ∷ seen) = []

-- Whether the loop has come to its end.
abbrev pub is_through : List Seen → Bool
is_through [] = false
is_through (closed ∷ seen) = true
is_through (gone ∷ seen) = true
is_through (chunk bytes ∷ seen) = is_through seen
is_through (lagged screen ∷ seen) = is_through seen
is_through (woken ∷ seen) = is_through seen

-- What the scanner is given.
abbrev pub scanned : List Seen → List (List ℕ)
scanned [] = []
scanned (chunk bytes ∷ seen) = bytes ∷ scanned seen
scanned (lagged screen ∷ seen) = scanned seen
scanned (woken ∷ seen) = scanned seen
scanned (closed ∷ seen) = []
scanned (gone ∷ seen) = []

abbrev pub url_of : Option PaneEvent → List Text
url_of (some (open_url url)) = url ∷ []
url_of _ = []

abbrev pub marker_url : Marker → Text
marker_url (Marker.open_url url) = url

module _ (json : Json PaneEvent) where
  abbrev pub requests_of : Op → Frame → List Text
  requests_of event frame = url_of (json_of json frame)
  requests_of _ frame = []

  -- The addresses that the client is asked to open.
  abbrev pub requests : List Frame → List Text
  requests [] = []
  requests (frame ∷ frames) = requests_of frame.op frame ++ requests frames

  requests-append : (xs ys : List Frame) → requests (xs ++ ys) ≡ requests xs ++ requests ys
  requests-append [] ys = refl
  requests-append (f ∷ xs) ys =
      ap (λ r. requests_of f.op f ++ r) (requests-append xs ys)
      ∙ sym (append_assoc (requests_of f.op f) (requests xs) (requests ys))

  requests-pane_event :
      (e : PaneEvent) (rest : List Frame)
      → requests (pane_event json e ∷ rest) ≡ url_of (some e) ++ requests rest
  unfolding json_of
  requests-pane_event e rest = ap (λ o. url_of o ++ requests rest) (json.from_slice-to_vec e)

  requests-found :
      (found : List Marker) → requests (map (open_event json) found) ≡ map marker_url found
  requests-found [] = refl
  requests-found (Marker.open_url url ∷ found) =
      requests-pane_event (open_url url) (map (open_event json) found)
      ∙ ap (◌∷◌ url) (requests-found found)

  requests-forward :
      (scanner : Scanner) (seen : List Seen) (after : List Frame)
      → requests after ≡ []
      → requests (forward json scanner seen after)
        ≡ map marker_url (feed_chunks scanner (scanned seen)).1
  unfolding forward feed_chunks
  requests-forward scanner [] after h = refl
  requests-forward scanner (chunk bytes ∷ seen) after h =
      let (scanner', found) = feed scanner bytes in
      requests-append (map (open_event json) found) (forward json scanner' seen after)
      ∙ rw (requests-found found, requests-forward scanner' seen after h)
          (sym (map-append marker_url found (feed_chunks scanner' (scanned seen)).1))
  requests-forward scanner (lagged screen ∷ seen) after h = requests-forward scanner seen after h
  requests-forward scanner (woken ∷ seen) after h = requests-forward scanner seen after h
  requests-forward scanner (closed ∷ seen) after h = h
  requests-forward scanner (gone ∷ seen) after h = h

  requests-drained : (alive : Bool) (left : List (List ℕ)) → requests (drained json alive left) ≡ []
  unfolding drained
  requests-drained true [] = refl
  requests-drained false [] = requests-pane_event exit (close_frame 0 ∷ [])
  requests-drained alive (bytes ∷ left) = requests-drained alive left

  requests-title : (title : Text) → requests (title_event json title) ≡ []
  requests-title [] = refl
  requests-title (c ∷ title) = requests-pane_event (titled (c ∷ title)) []

  -- The addresses that an attached client is asked to open are those that the scanner finds in the
  -- output as a whole, in their order, wherever the chunks of it end; an output that comes only when
  -- the child has gone is not scanned.
  pub attached-requests :
      (s : Session) (seen : List Seen) (alive : Bool) (left : List (List ℕ))
      → requests (attached json s seen alive left)
        ≡ map marker_url (feed new (concat (scanned seen))).1
  unfolding attached
  attached-requests s seen alive left =
      let after = drained json alive left in
      requests-append (title_event json s.title) (forward json new seen after)
      ∙ rw (requests-title s.title, requests-forward new seen after (requests-drained alive left))
          (ap (λ r. map marker_url r.1) (feed_chunks-concat new (scanned seen)))

  output-append : (xs ys : List Frame) → output (xs ++ ys) ≡ output xs ++ output ys
  output-append [] ys = refl
  output-append (f ∷ xs) ys =
      ap (λ r. output_of f.op f ++ r) (output-append xs ys)
      ∙ sym (append_assoc (output_of f.op f) (output xs) (output ys))

  output-found : (found : List Marker) → output (map (open_event json) found) ≡ []
  output-found [] = refl
  output-found (Marker.open_url url ∷ found) = output-found found

  output-drained :
      (alive : Bool) (left : List (List ℕ)) → output (drained json alive left) ≡ concat left
  unfolding drained
  output-drained true [] = refl
  output-drained false [] = refl
  output-drained alive (bytes ∷ left) = ap (λ r. bytes ++ r) (output-drained alive left)

  output-forward :
      (scanner : Scanner) (seen : List Seen) (after : List Frame)
      → output (forward json scanner seen after)
        ≡ shown seen ++ (if is_through seen then output after else [])
  unfolding forward
  output-forward scanner [] after = refl
  output-forward scanner (chunk bytes ∷ seen) after =
      let (scanner', found) = feed scanner bytes in
      ap (λ r. bytes ++ r)
        (output-append (map (open_event json) found) (forward json scanner' seen after)
          ∙ rw (output-found found) (output-forward scanner' seen after))
      ∙ sym (append_assoc bytes (shown seen) (if is_through seen then output after else []))
  output-forward scanner (lagged screen ∷ seen) after =
      ap (λ r. screen ++ r) (output-forward scanner seen after)
      ∙ sym (append_assoc screen (shown seen) (if is_through seen then output after else []))
  output-forward scanner (woken ∷ seen) after = output-forward scanner seen after
  output-forward scanner (closed ∷ seen) after = refl
  output-forward scanner (gone ∷ seen) after = refl

  output-title : (title : Text) → output (title_event json title) ≡ []
  output-title [] = refl
  output-title (c ∷ title) = refl

  -- The output that an attached client gets is the screen, then what its loop saw, with a screen in
  -- place of what it missed, and then, once the loop has ended, what was left in the channel.
  pub attached-output :
      (s : Session) (seen : List Seen) (alive : Bool) (left : List (List ℕ))
      → output (attached json s seen alive left)
        ≡ s.screen ++ (shown seen ++ (if is_through seen then concat left else []))
  unfolding attached
  attached-output s seen alive left =
      let after = drained json alive left in
      ap (λ r. s.screen ++ r)
        (output-append (title_event json s.title) (forward json new seen after)
          ∙ rw (output-title s.title, output-forward new seen after, output-drained alive left)
              refl)

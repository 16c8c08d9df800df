-- ===== src/Files/Transfer/Fetched.antt =====
-- io/fileutils.go: what DownloadFile has done when it returns without an error.
use gofrog.Prelude.{
  ◌≡◌, refl, List, [], ◌∷◌, ◌++◌, Bool, ◌∙◌, true, false, ◌==◌, if◌then◌else◌, Option, none, some,
  Bytes, inl, inr, ◌⊎◌, arith,
}
use gofrog.Files.Transfer.{
  TransferError, bad_status, Response, Transfers, os_parts, closed_file, after_create, closed_body,
  received_into, sent_into, requested, download_file,
}

module _ {S X : Type 0} (world : Transfers S X) (download_to : Bytes) where
  -- The file system after the three calls on the file.
  abbrev fetched : S → Response X → S
  fetched s resp =
      (world.close_file (world.copy (world.create s download_to).0 download_to resp).0
        download_to).0

  os_parts-nil : (e : Option X) → os_parts e ≡ [] → e ≡ none
  os_parts-nil none h = refl
  os_parts-nil (some e) h = absurd (ground arith)

  append-nil : {A : Type 0} (xs ys : List A) → xs ++ ys ≡ [] → (xs ≡ []) × (ys ≡ [])
  append-nil [] ys h = (refl, h)
  append-nil (x ∷ xs) ys h = absurd (ground arith)

  closed_file-nil :
      (q : S × Option X)
      → (closed_file world download_to q).1 ≡ []
      → (q.1 ≡ none)
        × ((world.close_file q.0 download_to).1 ≡ none)
        × ((closed_file world download_to q).0 ≡ (world.close_file q.0 download_to).0)
  unfolding closed_file
  closed_file-nil (s, e) h =
      let (none_e, none_close) =
        append-nil (os_parts e) (os_parts (world.close_file s download_to).1) h in
      (os_parts-nil e none_e, os_parts-nil (world.close_file s download_to).1 none_close, refl)

  after_create-nil :
      (resp : Response X) (r : S × Option X)
      → (after_create world download_to resp r).1 ≡ []
      → (r.1 ≡ none)
        × ((world.copy r.0 download_to resp).1 ≡ none)
        × ((world.close_file (world.copy r.0 download_to resp).0 download_to).1 ≡ none)
        × ((after_create world download_to resp r).0
            ≡ (world.close_file (world.copy r.0 download_to resp).0 download_to).0)
  unfolding after_create
  after_create-nil resp (s, some e) h = absurd (ground arith)
  after_create-nil resp (s, none) h =
      let (copied, closed, state) = closed_file-nil (world.copy s download_to resp) h in
      (refl, copied, closed, state)

  closed_body-nil :
      (resp : Response X) (r : S × List (TransferError X))
      → (closed_body world resp r).1 ≡ []
      → (r.1 ≡ []) × (resp.close_error ≡ none) × ((closed_body world resp r).0 ≡ r.0)
  unfolding closed_body
  closed_body-nil resp (s, errors) h =
      let (none_errors, none_close) = append-nil errors (os_parts resp.close_error) h in
      (none_errors, os_parts-nil resp.close_error none_close, refl)

  -- Every call on the answer and on the file has gone well, and the file system is as they leave it.
  record IsFetched (s : S) (resp : Response X) (t : S) : Type 0 where
    pub is_ok : (resp.status_code == 200) ≡ true
    pub created : (world.create s download_to).1 ≡ none
    pub copied : (world.copy (world.create s download_to).0 download_to resp).1 ≡ none
    pub file_closed :
        (world.close_file
          (world.copy (world.create s download_to).0 download_to resp).0
          download_to).1
        ≡ none
    pub body_closed : resp.close_error ≡ none
    pub state : t ≡ fetched s resp

  answered-nil :
      (s : S) (resp : Response X) (b : Bool)
      → (resp.status_code == 200) ≡ b
      → (closed_body world resp (
          if b
          then after_create world download_to resp (world.create s download_to)
          else (s, bad_status resp.status ∷ []))).1
        ≡ []
      → IsFetched s resp
          (closed_body world resp (
            if b
            then after_create world download_to resp (world.create s download_to)
            else (s, bad_status resp.status ∷ []))).0
  answered-nil s resp false same h =
      absurd (ground (arith, closed_body-nil resp (s, bad_status resp.status ∷ []) h))
  answered-nil s resp true same h =
      let (none_errors, body_closed, kept) =
        closed_body-nil resp (after_create world download_to resp (world.create s download_to)) h in
      let (created, copied, file_closed, state) =
        after_create-nil resp (world.create s download_to) none_errors in
      record {
        is_ok = same;
        created = created;
        copied = copied;
        file_closed = file_closed;
        body_closed = body_closed;
        state = kept ∙ state;
      }

  sent-nil :
      (s : S) (answer : X ⊎ Response X)
      → (sent_into world download_to s answer).1 ≡ []
      → (resp : Response X) × (answer ≡ inr resp)
        × IsFetched s resp (sent_into world download_to s answer).0
  unfolding sent_into received_into
  sent-nil s (inl e) h = absurd (ground arith)
  sent-nil s (inr resp) h = (resp, refl, answered-nil s resp (resp.status_code == 200) refl h)

  requested-nil :
      (s : S) (from_url : Bytes) (refused : Option X)
      → (requested world download_to from_url s refused).1 ≡ []
      → (refused ≡ none)
        × ((resp : Response X) × (world.send from_url ≡ inr resp)
            × IsFetched s resp (requested world download_to from_url s refused).0)
  unfolding requested
  requested-nil s from_url (some e) h = absurd (ground arith)
  requested-nil s from_url none h = (refl, sent-nil s (world.send from_url) h)

  -- DownloadFile without an error has made the request, the server has answered 200, and the file was
  -- made, filled and closed without an error, as was the body.
  download_file-IsFetched :
      (s : S) (from_url : Bytes)
      → (download_file world s download_to from_url).1 ≡ []
      → (world.new_request from_url ≡ none)
        × ((resp : Response X) × (world.send from_url ≡ inr resp)
            × IsFetched s resp (download_file world s download_to from_url).0)
  unfolding download_file
  download_file-IsFetched s from_url h = requested-nil s from_url (world.new_request from_url) h

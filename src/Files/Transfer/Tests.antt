-- ===== src/Files/Transfer/Tests.antt =====
-- Runs of Unmarshal and DownloadFile.
use gofrog.Prelude.{ℕ, ◌≡◌, refl, List, [], ◌∷◌, none, some, Bytes, codes, inl, inr}
use gofrog.Files.Transfer.{
  of_os, bad_status, Transfers, received_into, requested, download_file, unmarshal,
}

-- The file system is the list of the calls on files, last first.
abbrev world : ℕ → Transfers (List (ℕ × Bytes)) ℕ
world code = record {
  new_request = λ url. none;
  send = λ url. inr (record {
    status_code = code;
    status = codes "status";
    body = codes "b";
    read_error = none;
    close_error = some 5;
  });
  create = λ s path. ((1, path) ∷ s, none);
  copy = λ s path resp. ((2, resp.body) ∷ s, resp.read_error);
  close_file = λ s path. ((3, path) ∷ s, some 4);
}

-- Another status than 200 makes no file, and the body is closed.
not_found :
    download_file (world 404) [] (codes "f") (codes "u")
    ≡ ([], bad_status (codes "status") ∷ of_os 5 ∷ [])
unfolding download_file requested received_into
not_found = refl

-- The file is closed before the body.
both_closed :
    download_file (world 200) [] (codes "f") (codes "u")
    ≡ ((3, codes "f") ∷ (2, codes "b") ∷ (1, codes "f") ∷ [], of_os 4 ∷ of_os 5 ∷ [])
unfolding download_file requested received_into
both_closed = refl

-- The file is closed when it cannot be read, and both errors are told.
unread :
    unmarshal {V = Bytes} {X = ℕ}
      (λ content target. (content, none))
      (λ path. inr (record { content = inl 1; close_error = some 2 }))
      (codes "f")
      []
    ≡ ([], 1 ∷ 2 ∷ [])
unfolding unmarshal
unread = refl

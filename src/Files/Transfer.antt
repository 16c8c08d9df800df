-- ===== src/Files/Transfer.antt =====
-- io/fileutils.go: DownloadFile, GetFileContentAndInfo and Unmarshal. The network, the file system and the
-- JSON decoder are parameters: S is the state of the file system, X the type of the errors, and a joined
-- error is the list of its parts.
mod Fetched
mod Tests
use gofrog.Prelude.{
  ℕ, List, [], ◌∷◌, ◌++◌, if◌then◌else◌, ◌==◌, Option, none, some, Bytes, inl, inr, ◌⊎◌,
}

pub data TransferError (X : Type 0) : Type 0 where
  of_os : X → TransferError X
  -- The text of the status.
  bad_status : Bytes → TransferError X

-- What the server answers, and the errors of reading the body to its end and of closing it.
pub record Response (X : Type 0) : Type 0 where
  pub status_code : ℕ
  pub status : Bytes
  pub body : Bytes
  pub read_error : Option X
  pub close_error : Option X

pub record Transfers (S X : Type 0) : Type 0 where
  -- http.NewRequest of an address, and Do.
  pub new_request : Bytes → Option X
  pub send : Bytes → X ⊎ Response X
  -- os.Create, io.Copy of a body into the file, and Close.
  pub create : S → Bytes → S × Option X
  pub copy : S → Bytes → Response X → S × Option X
  pub close_file : S → Bytes → S × Option X

abbrev pub os_parts : {X : Type 0} → Option X → List (TransferError X)
os_parts none = []
os_parts (some e) = of_os e ∷ []

module _ {S X : Type 0} (world : Transfers S X) where
  -- The deferred Close of the file, by what io.Copy returns.
  closed_file : Bytes → S × Option X → S × List (TransferError X)
  closed_file download_to (s, e) = (
    (world.close_file s download_to).0,
    os_parts e ++ os_parts (world.close_file s download_to).1,
  )

  after_create : Bytes → Response X → S × Option X → S × List (TransferError X)
  unfolding closed_file
  after_create download_to resp (s, some e) = (s, of_os e ∷ [])
  after_create download_to resp (s, none) = closed_file download_to (world.copy s download_to resp)

  -- The deferred Close of the body.
  closed_body : Response X → S × List (TransferError X) → S × List (TransferError X)
  closed_body resp (s, errors) = (s, errors ++ os_parts resp.close_error)

  unfoldable pub received_into : Bytes → S → Response X → S × List (TransferError X)
  unfolding after_create closed_body
  received_into download_to s resp = closed_body resp (
      if resp.status_code == 200
      then after_create download_to resp (world.create s download_to)
      else (s, bad_status resp.status ∷ []))

  sent_into : Bytes → S → X ⊎ Response X → S × List (TransferError X)
  unfolding received_into
  sent_into download_to s (inl e) = (s, of_os e ∷ [])
  sent_into download_to s (inr resp) = received_into download_to s resp

  requested : Bytes → Bytes → S → Option X → S × List (TransferError X)
  unfolding sent_into
  requested download_to from_url s (some e) = (s, of_os e ∷ [])
  requested download_to from_url s none = sent_into download_to s (world.send from_url)

  unfoldable pub download_file : S → Bytes → Bytes → S × List (TransferError X)
  unfolding requested
  download_file s download_to from_url =
      requested download_to from_url s (world.new_request from_url)

-- I is the info of a file; none stands for nil.
unfoldable pub get_file_content_and_info :
    {I X : Type 0}
    → (Bytes → X ⊎ I)
    → (Bytes → Bytes × Option X)
    → Bytes
    → Bytes × Option I × Option X
get_file_content_and_info stat read_file file_path = elim (stat file_path) [
  | inl e ↦ ([], none, some e)
  | inr info ↦ ((read_file file_path).0, some info, (read_file file_path).1)
]

-- An open file: what io.ReadAll and Close answer.
pub record JsonFile (X : Type 0) : Type 0 where
  pub content : X ⊎ Bytes
  pub close_error : Option X

module _ {V X : Type 0} (decode : Bytes → V → V × Option X) where
  -- json.Unmarshal of what was read.
  decoded : V → X ⊎ Bytes → V × List X
  decoded target (inl e) = (target, e ∷ [])
  decoded target (inr content) = elim (decode content target).1 [
    | none ↦ ((decode content target).0, [])
    | some e ↦ ((decode content target).0, e ∷ [])
  ]

  closed_json : Option X → V × List X → V × List X
  closed_json none r = r
  closed_json (some e) (target, errors) = (target, errors ++ (e ∷ []))

  -- The target after, and the error.
  unfoldable pub unmarshal : (Bytes → X ⊎ JsonFile X) → Bytes → V → V × List X
  unfolding decoded closed_json
  unmarshal open_file file_path load_target = elim (open_file file_path) [
    | inl e ↦ (load_target, e ∷ [])
    | inr f ↦ closed_json f.close_error (decoded load_target f.content)
  ]

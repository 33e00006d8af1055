-- ===== src/Files.antt =====
-- What os.ReadFile followed by yaml.Unmarshal or json.Unmarshal gives the program: the libraries
-- are outside it, so a file's content enters the model as one of these results.
pub data FileRead {ℓ} (A : Type ℓ) : Type ℓ where
  -- os.IsNotExist(err)
  not_exist : FileRead A
  -- any other error of the read
  unreadable : FileRead A
  -- the bytes do not decode
  malformed : FileRead A
  decoded : A → FileRead A

pub data FileError : Type 0 where
  not_exist_error unreadable_error malformed_error : FileError

-- ===== src/Services/DbTargets.antt =====
-- backend/services/db_targets.py: the parser of the databases to back up.
pub mod Words
pub mod Configured
use snapshot_drive.Prelude.{
  ℕ, Bool, not, List, [], ◌∷◌, ◌==◌, Result, ok, err, require, ◌>>=◌, ◌>>◌,
}
use snapshot_drive.Prelude.Chars.{Chars, chars, same, one_of, lower, strip}
use snapshot_drive.Prelude.Chars.Scan.{span, every}
use snapshot_drive.Services.ArchiveConfig.Values.{in_label, split_words}

-- VALID_ENGINES
abbrev pub valid_engines : List Chars
valid_engines = chars "postgres" ∷ chars "mysql" ∷ chars "mongo" ∷ []

-- the exception, by its message
pub data ParseError : Type 0 where
  no_colon bad_engine no_dbname bad_dbname : ParseError

abbrev pub not_colon : ℕ → Bool
not_colon c = not (c == b':')

abbrev checked_target : Chars → Chars → Result ParseError (Chars × Chars)
checked_target engine dbname = do
  require (one_of engine valid_engines) bad_engine
  require (not (same dbname [])) no_dbname
  require (every in_label dbname) bad_dbname
  ok (engine, dbname)

-- what stands before the first colon and what follows it
abbrev parted : Chars × Chars → Result ParseError (Chars × Chars)
parted (engine, []) = err no_colon
parted (engine, colon ∷ dbname) = checked_target (lower (strip engine)) (strip dbname)

unfoldable pub parse_target : Chars → Result ParseError (Chars × Chars)
unfolding span
parse_target tok = parted (span not_colon tok)

-- the loop over the tokens
unfoldable pub parse_tokens : List Chars → Result ParseError (List (Chars × Chars))
unfolding parse_target
parse_tokens [] = ok []
parse_tokens (tok ∷ tokens) = do
  target ← parse_target tok
  rest ← parse_tokens tokens
  ok (target ∷ rest)

unfoldable pub parse_targets : Chars → Result ParseError (List (Chars × Chars))
unfolding parse_tokens
parse_targets s = parse_tokens (split_words (strip s))

-- ===== src/Ide/Return.antt =====
-- What `ide_write` of device/ide.c has put on a disk, `ide_read` gives back.
use geniux.Base.{ℕ, ◌<◌, ◌≡◌}
use geniux.Ide.{Ports, Ide}
use geniux.Ide.Data.{IsDisk, Prompt}
use geniux.Ide.Writer.{IsWriter, PromptWriter}

-- A disk that takes bytes and gives those that it has.
pub record IsDrive {Hw : Type 0} (P : Ports Hw) (base dev_no : ℕ) : Type 1 where
  pub writer : IsWriter P base dev_no
  pub bytes : (hw : Hw) (q : ℕ) → writer.content hw q < 256
  pub reader : (f : ℕ → ℕ) → ((q : ℕ) → f q < 256) → IsDisk P base dev_no f
  pub holds :
      (f : ℕ → ℕ) (b : (q : ℕ) → f q < 256) (hw : Hw)
      → ((q : ℕ) → writer.content hw q ≡ f q)
      → (reader f b).Good hw

-- It makes no pause between the sectors of a command.
abbrev pub IsPrompt :
    {Hw : Type 0} → (P : Ports Hw) (base dev_no : ℕ) → IsDrive P base dev_no → Type 0
IsPrompt P base dev_no drive =
    PromptWriter P base dev_no drive.writer
    × ((f : ℕ → ℕ) (b : (q : ℕ) → f q < 256) → Prompt P base dev_no f (drive.reader f b))

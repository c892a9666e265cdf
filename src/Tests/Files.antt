-- ===== src/Tests/Files.antt =====
-- The table of open files, and the user library's strings and numbers.
use osn_assignments.Base.{◌≡◌, refl, true, false, List, [], ◌∷◌, arith}
use osn_assignments.File.{fd_pipe, File, zero_file}
use osn_assignments.Ulib.{atoi, printint, fill_buf, put_back}
use osn_assignments.Ulib.Numbers.{atoi-printint}

-- The write end of a pipe, with two references.
abbrev write_end : File
write_end = record {
  kind = fd_pipe;
  ref = 2;
  readable = false;
  writable = true;
  pipe = 9;
  ip = 0;
  off = 0;
}

abbrev files : List File
files = zero_file ∷ (write_end ∷ (zero_file ∷ []))

abbrev files_dup : List File
files_dup = zero_file ∷ (record write_end { ref = 3 } ∷ (zero_file ∷ []))

printint_run : printint 507 10 true ≡ b'5' ∷ (b'0' ∷ (b'7' ∷ []))
unfolding printint fill_buf put_back
printint_run = refl

atoi-printint_example : atoi (printint 507 10 true) ≡ 507
atoi-printint_example = atoi-printint 507 true (omega arith)

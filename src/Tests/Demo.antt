-- ===== src/Tests/Demo.antt =====
-- The made-up graph, with a simple sequence in place of the random numbers.
use dist_lfsck.Demo.Seed.{MadeFiles, rows, object_of, links, made_files}
use dist_lfsck.Demo.{Desk, create_mds, create_oss, create_underscore, line_text}
use dist_lfsck.Prelude.{
  suc, some, ◌%◌, ◌⊎◌, ◌++◌, map, length, All, Bytes, arith, ℕ, ◌+◌, ◌*◌, ◌≡◌, refl, false, [], ◌∷◌,
  codes,
}
use dist_lfsck.Reader.Ends.{Any, Fits, IsTooLong, pieces, reader_ends}
use dist_lfsck.Reader.Made.{file_text, last_words, made_file_read}
use dist_lfsck.Reader.{
  Words, done, overruns_a, fgets, unread, c_string, skip_space, word, behind_word, sscanf, main,
}
use dist_lfsck.Text.{digits, dec}

abbrev counting : ℕ → ℕ
counting k = 1000 + 37 * k

abbrev old_desk : Desk
old_desk = record {
  file1 = create_oss (record { inode_number = 1; lma = 2; fid = 3 }) ∷ [];
  file2 = [];
  draws = 7;
  refused = false;
}

made_files_example : MadeFiles counting old_desk
made_files_example = made_files counting old_desk

row_text :
    line_text (create_mds (record { inode_number = 1000; lma = 100; link_ea = 200; lov_ea = 37 }))
    ≡ codes "CREATE (100:MDS{inode_number:1000,lma:100,linkEA:200,lovEA:37}) \n"
unfolding line_text dec digits
row_text = refl

-- With inode numbers of ten digits the lines of the MDS nodes are longer than the reader's buffer.
abbrev large : ℕ → ℕ
large k = 2147483500 + k % 100

abbrev made_desk : Desk
made_desk = record {
  file1 =
      map create_underscore (rows large 10 1 0)
      ++ (links (rows large 10 1 20) ++ map create_oss (map object_of (rows large 10 1 0)));
  file2 = map create_mds (rows large 10 1 0) ++ map create_oss (map object_of (rows large 10 1 0));
  draws = 20;
  refused = false;
}

made_file_read_example : main (some (file_text made_desk.file2)) ≡ some (done (last_words large))
made_file_read_example =
    made_file_read large old_desk made_desk (λ k. omega arith) (made_files large old_desk)

abbrev one_word : Bytes
one_word = codes "CREATE(100:MDS{inode_number:7})\n"

reader_ends_example :
    (All Fits (pieces (suc (length one_word)) one_word)
      × ((t : Words) × (main (some one_word) ≡ some (done t))))
    ⊎ (Any IsTooLong (pieces (suc (length one_word)) one_word)
        × (main (some one_word) ≡ some overruns_a))
reader_ends_example = reader_ends one_word

-- A line without a space before its twentieth character is too long for the first buffer.
long_word_overruns : main (some one_word) ≡ some overruns_a
unfolding main sscanf fgets unread c_string skip_space word behind_word
long_word_overruns = refl

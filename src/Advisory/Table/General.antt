-- ===== src/Advisory/Table/General.antt =====
-- internal/advisory/decision_table.json: the four cells that cover a status whatever the other dimensions.
use audiax_backend.Common.{true, false, List, [], ◌∷◌}
use audiax_backend.Common.Text.{text}
use audiax_backend.Advisory.{Cell}

unfoldable pub general : List Cell
general =
    record {
      key = text "NORMAL|*|*|*";
      urgency = text "tidak_perlu_tindakan";
      safety_gate = [];
      checklist = [];
      escalate_if =
          text
            "Tidak ada tindakan yang diperlukan sekarang. Tetap perhatikan mesin secara berkala dan lakukan inspeksi rutin berikutnya seperti biasa.";
      recheck_hours = 720;
      needs_technician = false;
    }
    ∷ record {
      key = text "KALIBRASI_KURANG|*|*|*";
      urgency = text "kalibrasi_ulang_diperlukan";
      safety_gate = [];
      checklist =
          text
            "Rekam ulang suara mesin selama sekitar 2 menit saat mesin menyala normal, di lokasi yang sama seperti kalibrasi pertama."
          ∷ text
              "Pastikan tidak ada suara bising dari luar (radio, orang bicara keras, alat lain) saat merekam."
          ∷ text
              "Pastikan mesin dalam kondisi yang diyakini sehat saat merekam ulang - jangan kalibrasi mesin yang sedang bermasalah."
          ∷ [];
      escalate_if =
          text
            "Kalau setelah dikalibrasi ulang hasilnya tetap KALIBRASI_KURANG, hubungi dukungan teknis aplikasi - ini bukan masalah pada mesin.";
      recheck_hours = 0;
      needs_technician = false;
    }
    ∷ record {
      key = text "WARNING|*|*|*";
      urgency = text "rencanakan_dalam_24_jam";
      safety_gate =
          text "Matikan mesin dan tunggu impeler berhenti total sebelum memeriksa apa pun.";
      checklist =
          text "Periksa baut dudukan motor dan blower, kencangkan yang longgar."
          ∷ text "Raba rumah bearing (mesin mati): terasa jauh lebih panas dari biasanya?"
          ∷ text
              "Dengarkan dari jarak aman saat mesin dinyalakan sebentar: ada bunyi asing dibanding biasanya?"
          ∷ text
              "Lihat sekeliling mesin: ada tanda getaran tidak wajar, kotoran menumpuk, atau bagian yang longgar?"
          ∷ [];
      escalate_if =
          text
            "Informasi indikator dari sistem tidak lengkap untuk kasus ini - percayakan pemeriksaan detail ke teknisi walau checklist di atas terlihat normal.";
      recheck_hours = 24;
      needs_technician = true;
    }
    ∷ record {
      key = text "CRITICAL|*|*|*";
      urgency = text "segera";
      safety_gate =
          text "Matikan mesin dan tunggu impeler berhenti total sebelum memeriksa apa pun.";
      checklist =
          text "Periksa baut dudukan motor dan blower, kencangkan yang longgar."
          ∷ text "Raba rumah bearing (mesin mati): terasa jauh lebih panas dari biasanya?"
          ∷ text
              "Lihat sekeliling mesin: ada tanda asap, bau gosong, atau kerusakan yang terlihat jelas?"
          ∷ [];
      escalate_if =
          text
            "Informasi indikator dari sistem tidak lengkap untuk kasus ini - jangan nyalakan mesin lagi, tunggu teknisi memeriksa.";
      recheck_hours = 0;
      needs_technician = true;
    }
    ∷ []

-- ===== src/HostProbe/Names.antt =====
-- The names that apps/host_probe/detectors.cpp compares with, as bytes.
use autosar_idsm.Prelude.{ℕ, List, [], ◌∷◌}

-- sh, bash, ash, dash, zsh, ksh, mksh, toysh, csh, tcsh, fish
abbrev pub k_shells : List (List ℕ)
k_shells =
    (115 ∷ 104 ∷ [])
    ∷ (98 ∷ 97 ∷ 115 ∷ 104 ∷ [])
    ∷ (97 ∷ 115 ∷ 104 ∷ [])
    ∷ (100 ∷ 97 ∷ 115 ∷ 104 ∷ [])
    ∷ (122 ∷ 115 ∷ 104 ∷ [])
    ∷ (107 ∷ 115 ∷ 104 ∷ [])
    ∷ (109 ∷ 107 ∷ 115 ∷ 104 ∷ [])
    ∷ (116 ∷ 111 ∷ 121 ∷ 115 ∷ 104 ∷ [])
    ∷ (99 ∷ 115 ∷ 104 ∷ [])
    ∷ (116 ∷ 99 ∷ 115 ∷ 104 ∷ [])
    ∷ (102 ∷ 105 ∷ 115 ∷ 104 ∷ [])
    ∷ []

-- adbd, sshd, dropbear, netd, rild, httpd, nginx, lighttpd, inetd, xinetd, ftpd, vsftpd, proftpd,
-- telnetd, smbd
abbrev pub k_default : List (List ℕ)
k_default =
    (97 ∷ 100 ∷ 98 ∷ 100 ∷ [])
    ∷ (115 ∷ 115 ∷ 104 ∷ 100 ∷ [])
    ∷ (100 ∷ 114 ∷ 111 ∷ 112 ∷ 98 ∷ 101 ∷ 97 ∷ 114 ∷ [])
    ∷ (110 ∷ 101 ∷ 116 ∷ 100 ∷ [])
    ∷ (114 ∷ 105 ∷ 108 ∷ 100 ∷ [])
    ∷ (104 ∷ 116 ∷ 116 ∷ 112 ∷ 100 ∷ [])
    ∷ (110 ∷ 103 ∷ 105 ∷ 110 ∷ 120 ∷ [])
    ∷ (108 ∷ 105 ∷ 103 ∷ 104 ∷ 116 ∷ 116 ∷ 112 ∷ 100 ∷ [])
    ∷ (105 ∷ 110 ∷ 101 ∷ 116 ∷ 100 ∷ [])
    ∷ (120 ∷ 105 ∷ 110 ∷ 101 ∷ 116 ∷ 100 ∷ [])
    ∷ (102 ∷ 116 ∷ 112 ∷ 100 ∷ [])
    ∷ (118 ∷ 115 ∷ 102 ∷ 116 ∷ 112 ∷ 100 ∷ [])
    ∷ (112 ∷ 114 ∷ 111 ∷ 102 ∷ 116 ∷ 112 ∷ 100 ∷ [])
    ∷ (116 ∷ 101 ∷ 108 ∷ 110 ∷ 101 ∷ 116 ∷ 100 ∷ [])
    ∷ (115 ∷ 109 ∷ 98 ∷ 100 ∷ [])
    ∷ []

-- sshd, adbd, dropbear, telnetd
abbrev pub remote_logins : List (List ℕ)
remote_logins =
    (115 ∷ 115 ∷ 104 ∷ 100 ∷ [])
    ∷ (97 ∷ 100 ∷ 98 ∷ 100 ∷ [])
    ∷ (100 ∷ 114 ∷ 111 ∷ 112 ∷ 98 ∷ 101 ∷ 97 ∷ 114 ∷ [])
    ∷ (116 ∷ 101 ∷ 108 ∷ 110 ∷ 101 ∷ 116 ∷ 100 ∷ [])
    ∷ []
